-- ===== src/Nudge/Creation.antt =====
-- `CreateRawdata`: the raw data that a push starts from.
pub mod Ids
use opentelemetry_collector.Prelude.{
  ℕ, zero, suc, ◌+◌, ◌-◌, ◌%◌, ◌^◌, ◌≤◌, ◌<◌, String, len, slice, Bool, true, false, not, ◌&&◌,
  ◌||◌, List, [], ◌∷◌, ◌++◌, map, Option, none, some, ◌==◌, ◌+++◌, if◌then◌else◌, ◌≡◌, ◌≢◌, refl,
  sym, ap, ◌∙◌, subst, ◌⊎◌, inl, inr, arith, All, Bool-cases, Option-cases, eq_iff, eqb, length,
  any,
}
use opentelemetry_collector.Prelude.{join, split, cut, add64}
use opentelemetry_collector.Nudge.Model.{KeyValue}
use opentelemetry_collector.Nudge.Host.{
  System, Processor, Drive, SystemMetricSample, system_metrics,
}

-- pdata.ServerConfig with its JvmInfo
pub record ServerConfig : Type 0 where
  pub os_arch : String
  pub os_name : String
  pub os_version : String
  pub available_processors : ℕ
  pub vm_name : String
  pub vm_version : String
  pub start_time : ℕ
  pub boot_class_path : Option String
  pub canonical_host_name : Option String
  pub host_name : String
  pub app_name : String
  pub environment : String
  pub server_name : String
  pub input_arguments : String
  pub jvm_host_name : String
  pub system_properties : List KeyValue

abbrev pub processor_text : Processor → String
processor_text p = p.model_name +++ "|" +++ p.family +++ "|" +++ p.mhz

-- the loop over the environment
abbrev pub environment_of : (String → String) → List String → List KeyValue
environment_of getenv [] = []
environment_of getenv (e ∷ es) =
    record { key = (cut b'=' e).0; value = getenv (cut b'=' e).0 } ∷ environment_of getenv es

-- service_hostname
abbrev pub service_hostname : String → String
service_hostname hostname = join "_" (split b' ' hostname)

unfoldable pub server_config : System → String → ServerConfig
server_config s hostname = record {
  os_arch = s.goarch;
  os_name = s.goos;
  os_version = s.os_version;
  available_processors = s.cpus % 2 ^ 32;
  vm_name = "CollectorOTLP@" +++ hostname;
  vm_version = join ";" (map processor_text s.processors);
  start_time = s.config_time;
  boot_class_path = if s.executable.1 then some (s.dir_of s.executable.0) else none;
  canonical_host_name = if s.dns == "" then none else s.gateway_name;
  host_name = service_hostname hostname;
  app_name = s.application_name;
  environment = s.goos;
  server_name = s.application_name;
  input_arguments = join ";" s.arguments;
  jvm_host_name = hostname;
  system_properties = environment_of s.getenv s.environ;
}

-- pdata.HeapMemory
pub record HeapMemory : Type 0 where
  pub start_time : ℕ
  pub used : ℕ
  pub total : ℕ
  pub end_time : ℕ

-- pdata.ThreadActivity
pub record ThreadActivity : Type 0 where
  pub start_time : ℕ
  pub count : ℕ
  pub daemon_thread_count : ℕ
  pub new_thread_count : ℕ
  pub cpu_time : ℕ
  pub user_time : ℕ
  pub end_time : ℕ

abbrev pub heap_memory : System → HeapMemory
heap_memory s = record {
  start_time = s.heap_times.0;
  used = s.memory.heap_inuse;
  total = s.memory.total_alloc;
  end_time = s.heap_times.1;
}

-- time.Second * 5 is a number of nanoseconds
abbrev pub thread_activity : System → ThreadActivity
thread_activity s = record {
  start_time = s.activity_time;
  count = 1;
  daemon_thread_count = 0;
  new_thread_count = 0;
  cpu_time = s.cpu_usage;
  user_time = s.cpu_usage;
  end_time = add64 s.activity_time 5000000000;
}

-- What the raw data says of the host.
pub record Resource : Type 0 where
  pub hostname : String
  pub host_key : ℕ
  pub config : ServerConfig
  pub metrics : List SystemMetricSample
  pub heap : HeapMemory
  pub activity : ThreadActivity

-- The fields that CreateRawdata fills. The id is no field: it is a pointer to the exporter's counter.
pub record Content : Type 0 where
  pub agent_id : String
  pub resource : Option Resource

-- The fields of NudgeExporter that CreateRawdata uses.
pub record Creator : Type 0 where
  pub cmpt : ℕ
  pub index_rawdata : ℕ
  pub hostname : String
  pub agent_id : String
  pub all_drives : Option (List Drive)
  pub insert_resource : Bool
  pub rawdata : Option Content

unfoldable pub resource_of : Creator → System → Resource
unfolding server_config system_metrics
resource_of c s = record {
  hostname = service_hostname c.hostname;
  host_key = s.host_key (service_hostname c.hostname);
  config = server_config s c.hostname;
  metrics = system_metrics s.metrics_time s.memory c.all_drives;
  heap = heap_memory s;
  activity = thread_activity s;
}

-- CreateRawdata
unfoldable pub create_rawdata : System → Creator → Creator
unfolding resource_of
create_rawdata s c = elim c.rawdata [
  | some content ↦ c
  | none ↦
      if c.insert_resource
      then record c {
        cmpt = add64 c.cmpt 1;
        index_rawdata = add64 c.index_rawdata 1;
        rawdata = some (record { agent_id = c.agent_id; resource = some (resource_of c s) });
      }
      else record c {
        cmpt = add64 c.cmpt 1;
        rawdata = some (record { agent_id = c.agent_id; resource = none });
      }
]

-- The id that the encoders read, through the pointer.
abbrev pub id_of : Creator → Option ℕ
id_of c = elim c.rawdata [ none ↦ none | some content ↦ some c.cmpt ]

-- the reset of the raw data at the start of `export`
abbrev pub reset_rawdata : Creator → Creator
reset_rawdata c = record c { rawdata = none }
