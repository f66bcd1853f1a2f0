-- ===== src/Nudge/Host/Metrics.antt =====
-- The metrics of the host in the raw data.
use opentelemetry_collector.Prelude.{
  ℕ, zero, suc, ◌≤◌, String, false, List, [], ◌∷◌, ◌++◌, Option, none, ◌==◌, ◌≡◌, refl, sym, subst,
  inl, inr, arith, All, Bool-cases, length, length-append,
}
use opentelemetry_collector.Prelude.{All-append}
use opentelemetry_collector.Nudge.Host.{
  Drive, Mount, Memory, SystemMetricSample, init_drives, system_metrics, drive_metrics,
  mount_metrics, mounts_of, drives_of, if_positive, sample, is_swap,
}

abbrev pub IsTimed : ℕ → SystemMetricSample → Type 0
IsTimed now m = m.timestamp ≡ now

mount_metrics-IsTimed : (now : ℕ) (ms : List Mount) → All (IsTimed now) (mount_metrics now ms)
unfolding mount_metrics
mount_metrics-IsTimed now [] = tt
mount_metrics-IsTimed now (m ∷ ms) = elim (Bool-cases (is_swap m)) [
  | inl e ↦ rw (e, mount_metrics) (refl, (refl, mount_metrics-IsTimed now ms))
  | inr e ↦ rw (e, mount_metrics) (mount_metrics-IsTimed now ms)
]

drive_metrics-IsTimed : (now : ℕ) (ds : List Drive) → All (IsTimed now) (drive_metrics now ds)
unfolding drive_metrics
drive_metrics-IsTimed now [] = tt
drive_metrics-IsTimed now (d ∷ ds) = elim (Bool-cases (d.path == "[SWAP]")) [
  | inl e ↦ rw (e, drive_metrics) (drive_metrics-IsTimed now ds)
  | inr e ↦
      rw (e, drive_metrics)
        (All-append (IsTimed now) (mount_metrics now (mounts_of d.mountpoints))
          (drive_metrics now ds) (mount_metrics-IsTimed now (mounts_of d.mountpoints))
          (drive_metrics-IsTimed now ds))
]

if_positive-IsTimed :
    (now n : ℕ) (key : String) → All (IsTimed now) (if_positive n (sample now key n ∷ []))
if_positive-IsTimed now zero key = tt
if_positive-IsTimed now (suc n) key = (refl, tt)

if_positive-length : (now n : ℕ) (key : String) → length (if_positive n (sample now key n ∷ [])) ≤ 1
if_positive-length now zero key = omega arith
if_positive-length now (suc n) key = omega arith

-- All metrics of one raw data carry the same time, for any memory and any drives.
pub system_metrics-IsTimed :
    (now : ℕ) (m : Memory) (drives : Option (List Drive))
    → All (IsTimed now) (system_metrics now m drives)
unfolding system_metrics
system_metrics-IsTimed now m drives = (
  refl,
  (
    refl,
    All-append (IsTimed now) (if_positive m.avail_phys _) _
        (if_positive-IsTimed now m.avail_phys "swap.free")
        (All-append (IsTimed now) (if_positive m.total_phys _) _
          (if_positive-IsTimed now m.total_phys "swap.total")
          (refl, (refl, drive_metrics-IsTimed now (drives_of drives)))),
  ),
)

init_drives-none : (drives : List Drive) → init_drives drives false ≡ none
unfolding init_drives
init_drives-none [] = refl
init_drives-none (d ∷ ds) = refl

joined-length :
    (xs ys : List SystemMetricSample) (p q r s : SystemMetricSample)
    → length xs ≤ 1
    → length ys ≤ 1
    → length (p ∷ q ∷ (xs ++ (ys ++ r ∷ s ∷ []))) ≤ 6
joined-length xs ys p q r s h k =
    omega (arith, length-append xs (ys ++ r ∷ s ∷ []), length-append ys (r ∷ s ∷ []))

-- A defect: when the drives of the host can be read, none of them is in the metrics. Whatever the
-- drives are, there are at most six metrics, those of the memory.
pub system_metrics-length :
    (now : ℕ) (m : Memory) (drives : List Drive)
    → length (system_metrics now m (init_drives drives false)) ≤ 6
unfolding system_metrics drive_metrics
system_metrics-length now m drives =
    subst (λ ds. length (system_metrics now m ds) ≤ 6) (sym (init_drives-none drives))
      (joined-length (if_positive m.avail_phys (sample now "swap.free" m.avail_phys ∷ []))
        (if_positive m.total_phys (sample now "swap.total" m.total_phys ∷ []))
        (sample now "mem.free" m.avail_phys) (sample now "mem.total" m.total_phys)
        (sample now "disk.total#[SWAP]" m.total_page_file)
        (sample now "disk.free#[SWAP]" m.avail_page_file)
        (if_positive-length now m.avail_phys "swap.free")
        (if_positive-length now m.total_phys "swap.total"))
