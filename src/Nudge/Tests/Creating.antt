-- ===== src/Nudge/Tests/Creating.antt =====
-- Instances of the theorems about the creation of the raw data.
use opentelemetry_collector.Prelude.{true, false, [], ◌∷◌, none, ◌≡◌}
use opentelemetry_collector.Nudge.Host.{System, Memory}
use opentelemetry_collector.Nudge.Creation.{Creator}
use opentelemetry_collector.Nudge.Creation.Ids.{exported, numbered, next_id, exported-numbered}

abbrev memory : Memory
memory = record {
  avail_phys = 4096;
  total_phys = 16384;
  total_page_file = 2048;
  avail_page_file = 1024;
  heap_inuse = 12;
  total_alloc = 40;
}

abbrev system : System
system = record {
  goarch = "amd64";
  goos = "linux";
  os_version = "6.1";
  cpus = 8;
  processors = [];
  executable = ("/otelcol", false);
  dir_of = λ s. s;
  dns = "";
  gateway_name = none;
  arguments = "/otelcol" ∷ [];
  environ = "HOME=/root" ∷ [];
  getenv = λ s. "/root";
  host_key = λ s. 7;
  memory = memory;
  cpu_usage = 3;
  application_name = "shop";
  config_time = 1000;
  metrics_time = 1001;
  heap_times = (1002, 1003);
  activity_time = 1004;
}

abbrev creator : Creator
creator = record {
  cmpt = 0;
  index_rawdata = 0;
  hostname = "my host";
  agent_id = "a";
  all_drives = none;
  insert_resource = true;
  rawdata = none;
}

exported-numbered_example :
    exported (λ n. system) (true ∷ false ∷ true ∷ []) creator
    ≡ numbered (next_id creator) (true ∷ false ∷ true ∷ [])
exported-numbered_example = exported-numbered (λ n. system) (true ∷ false ∷ true ∷ []) creator
