-- ===== src/Nudge/Host.antt =====
-- What `CreateRawdata` asks of the host, and the metrics that it makes of the answers; `InitDrives`.
-- What the operating system and other packages answer is a record, `System`; a time is what one
-- reading of the clock gives, in milliseconds. The order of a Go map is that of a list here.
pub mod Metrics
use opentelemetry_collector.Prelude.{
  ℕ, zero, suc, ◌+◌, ◌-◌, ◌%◌, ◌^◌, ◌≤◌, ◌<◌, String, len, slice, Bool, true, false, not, ◌&&◌,
  ◌||◌, List, [], ◌∷◌, ◌++◌, map, Option, none, some, ◌==◌, ◌+++◌, if◌then◌else◌, ◌≡◌, ◌≢◌, refl,
  sym, ap, ◌∙◌, subst, ◌⊎◌, inl, inr, arith, All, Bool-cases, Option-cases, eq_iff, eqb, length,
  any,
}
use opentelemetry_collector.Prelude.{join, split, cut, add64}
use opentelemetry_collector.Nudge.Model.{KeyValue}

-- A mount point of a drive: a value that is no map, or a map with its path, if that is a text.
pub data Mount : Type 0 where
  no_map : Mount
  mounted : Option String → Mount

-- `mountpoints` is `none` if they are no slice
pub record Drive : Type 0 where
  pub path : String
  pub mountpoints : Option (List Mount)

-- mySystem.GetMemoryWindows
pub record Memory : Type 0 where
  pub avail_phys : ℕ
  pub total_phys : ℕ
  pub total_page_file : ℕ
  pub avail_page_file : ℕ
  pub heap_inuse : ℕ
  pub total_alloc : ℕ

-- an entry of cpu.Info, with the text of its frequency
pub record Processor : Type 0 where
  pub model_name : String
  pub family : String
  pub mhz : String

-- `executable` has the path and whether os.Executable failed; `gateway_name` is the name of the
-- gateway, if there is one; `cpu_usage` is int64 of the metric; `dir_of` is filepath.Dir with Join,
-- `host_key` the first eight bytes of the MD5 sum
pub record System : Type 0 where
  pub goarch : String
  pub goos : String
  pub os_version : String
  pub cpus : ℕ
  pub processors : List Processor
  pub executable : String × Bool
  pub dir_of : String → String
  pub dns : String
  pub gateway_name : Option String
  pub arguments : List String
  pub environ : List String
  pub getenv : String → String
  pub host_key : String → ℕ
  pub memory : Memory
  pub cpu_usage : ℕ
  pub application_name : String
  pub config_time : ℕ
  pub metrics_time : ℕ
  pub heap_times : ℕ × ℕ
  pub activity_time : ℕ

-- InitDrives: what AllDrives has under "drives", from the drives and whether there was an error
unfoldable pub init_drives : List Drive → Bool → Option (List Drive)
init_drives [] failed = none
init_drives (d ∷ ds) failed = if failed then some (d ∷ ds) else none

-- pdata.SystemMetricSample
pub record SystemMetricSample : Type 0 where
  pub key : String
  pub timestamp : ℕ
  pub long_value : Option ℕ

abbrev pub sample : ℕ → String → ℕ → SystemMetricSample
sample now key value = record { key = key; timestamp = now; long_value = some value }

abbrev pub space : ℕ → String → SystemMetricSample
space now key = record { key = key; timestamp = now; long_value = none }

-- `some` of a mount whose space is not nil
abbrev pub is_swap : Mount → Bool
is_swap no_map = false
is_swap (mounted none) = true
is_swap (mounted (some path)) = path == "[SWAP]"

-- the loop over the mount points
unfoldable pub mount_metrics : ℕ → List Mount → List SystemMetricSample
mount_metrics now [] = []
mount_metrics now (m ∷ ms) =
    let rest = mount_metrics now ms in
    if is_swap m
    then space now "disk.total#${part.path}" ∷ space now "disk.free#${part.path}" ∷ rest
    else rest

abbrev pub mounts_of : Option (List Mount) → List Mount
mounts_of none = []
mounts_of (some ms) = ms

-- the loop over the drives
unfoldable pub drive_metrics : ℕ → List Drive → List SystemMetricSample
unfolding mount_metrics
drive_metrics now [] = []
drive_metrics now (d ∷ ds) =
    let rest = drive_metrics now ds in
    if d.path == "[SWAP]" then rest else mount_metrics now (mounts_of d.mountpoints) ++ rest

abbrev pub if_positive : ℕ → List SystemMetricSample → List SystemMetricSample
if_positive zero ms = []
if_positive (suc n) ms = ms

abbrev pub drives_of : Option (List Drive) → List Drive
drives_of none = []
drives_of (some ds) = ds

-- getAlldrivesX
unfoldable pub system_metrics : ℕ → Memory → Option (List Drive) → List SystemMetricSample
unfolding drive_metrics
system_metrics now m drives =
    sample now "mem.free" m.avail_phys
    ∷ sample now "mem.total" m.total_phys
    ∷ (if_positive m.avail_phys (sample now "swap.free" m.avail_phys ∷ [])
        ++ (if_positive m.total_phys (sample now "swap.total" m.total_phys ∷ [])
            ++ (sample now "disk.total#[SWAP]" m.total_page_file
                ∷ sample now "disk.free#[SWAP]" m.avail_page_file
                ∷ drive_metrics now (drives_of drives))))
