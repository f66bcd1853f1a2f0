-- ===== src/Nudge/Push/Dumps.antt =====
-- The files that pushTraces tries to write for `recordCollecte`.
use opentelemetry_collector.Nudge.Result.{Ensures, returned, Ensures-bind}
use opentelemetry_collector.Nudge.Push.Signals.{export-keeps}
use mathlib.Core.List.{map-append}
use opentelemetry_collector.Nudge.Push.Passes.{state_of, count_round-inv, push_loop-inv}
use opentelemetry_collector.Nudge.Push.{
  Pushing, build_path_collect, RawData, deliver, flush_rawdata_to_file_disk, Loop, or_else, pointer,
  PushError, push_round, push_traces, Environment, write_found, Resource, first_error,
  send_transactions, translate, application_ids,
}
use opentelemetry_collector.Nudge.Extension.{ExtensionLinux}
use opentelemetry_collector.Nudge.Export.{Mesure, Exporter, export}
use opentelemetry_collector.Nudge.Response.{Externals, Decoders, Reply}
use opentelemetry_collector.Nudge.Config.{Config, EncodingType}
use opentelemetry_collector.Prelude.{
  ℕ, String, Bool, true, false, List, [], ◌∷◌, ◌++◌, map, Option, none, some, ◌==◌, if◌then◌else◌,
  ◌≡◌, refl, sym, ap, ◌∙◌, subst, inl, inr, Bool-cases, add64,
}

-- The call of os.WriteFile for one body: the file, its content, and whether it was written.
abbrev dump : Externals → ℕ → String → String × String × Bool
dump x n body =
    let filename = build_path_collect x "X" n in (filename, body, x.write_file filename body)

-- The calls of os.WriteFile for a sequence of bodies, numbered from `n`, and the next number.
abbrev pub dumped : Externals → ℕ → List String → List (String × String × Bool)
dumped x n [] = []
dumped x n (body ∷ bodies) = dump x n body ∷ dumped x (add64 n 1) bodies

abbrev pub next_number : ℕ → List String → ℕ
next_number n [] = n
next_number n (body ∷ bodies) = next_number (add64 n 1) bodies

dumped-append :
    (x : Externals) (n : ℕ) (bodies : List String) (body : String)
    → (dumped x n (bodies ++ body ∷ [])
        ≡ dumped x n bodies ++ dump x (next_number n bodies) body ∷ [])
      × (next_number n (bodies ++ body ∷ []) ≡ add64 (next_number n bodies) 1)
dumped-append x n [] body = (refl, refl)
dumped-append x n (b ∷ bs) body =
    let (files, number) = dumped-append x (add64 n 1) bs body in
    (ap (λ fs. dump x n b ∷ fs) files, number)

abbrev pub bodies_of : List (String × String) → List String
bodies_of posts = map (λ (p : String × String). p.1) posts

bodies_of-append :
    (posts : List (String × String)) (url body : String)
    → bodies_of (posts ++ (url, body) ∷ []) ≡ bodies_of posts ++ body ∷ []
bodies_of-append posts url body = map-append (λ (p : String × String). p.1) posts _

-- With `recordCollecte` os.WriteFile is called for every body that went to `export`, the files are
-- numbered in the order of the calls from `n`, also after a write that fails, and there are no other
-- calls; without it there are none.
pub record IsDumped (config : Config) (x : Externals) (n : ℕ) (p : Pushing) : Type 0 where
  pub config_kept : p.exporter.config ≡ config
  pub files : p.files ≡ (if config.record_collecte then dumped x n (bodies_of p.posts) else [])
  pub number :
      p.filename_n ≡ (if config.record_collecte then next_number n (bodies_of p.posts) else n)

module _ (config : Config) (ext : ExtensionLinux) (x : Externals) (d : Decoders)
    (marshal : EncodingType → RawData → Option String) (clock : ℕ → ℕ) (traces_url : String)
    (n : ℕ) where
  -- The state after a request, with its file under the test `b`.
  abbrev written :
      Bool → String → String → Exporter → List Mesure → Option PushError → Pushing → Pushing
  written b url body e ms error p =
      let p' = if b then flush_rawdata_to_file_disk x body p else p in
      record p' { exporter = e; mesures = ms; posts = p'.posts ++ (url, body) ∷ []; error = error }

  written-IsDumped :
      (p : Pushing) (e : Exporter) (ms : List Mesure) (url body : String) (error : Option PushError)
      (b : Bool)
      → config.record_collecte ≡ b
      → e.config ≡ config
      → IsDumped config x n p
      → IsDumped config x n (written b url body e ms error p)
  unfolding flush_rawdata_to_file_disk
  written-IsDumped p e ms url body error true on k h =
      let (files, number) = dumped-append x n (bodies_of p.posts) body in
      let posts = bodies_of-append p.posts url body in
      let before : p.files ≡ dumped x n (bodies_of p.posts) =
        subst (λ b. p.files ≡ (if b then dumped x n (bodies_of p.posts) else [])) on h.files in
      let next : p.filename_n ≡ next_number n (bodies_of p.posts) =
        subst (λ b. p.filename_n ≡ (if b then next_number n (bodies_of p.posts) else n)) on
          h.number in
      record {
        config_kept = k;
        files = rw (on, posts, files, before, next) refl;
        number = rw (on, posts, number, next) refl;
      }
  written-IsDumped p e ms url body error false off k h = record {
    config_kept = k;
    files =
        rw off
          (subst (λ b. p.files ≡ (if b then dumped x n (bodies_of p.posts) else [])) off h.files);
    number = rw off (
        subst (λ b. p.filename_n ≡ (if b then next_number n (bodies_of p.posts) else n)) off
          h.number);
  }

  deliver-IsDumped :
      (p : Pushing) (raw : RawData) (s : Loop) (request : Option String) (reply : Reply)
      (ms : List Mesure) (found : Option (Mesure × ℕ))
      → IsDumped config x n p
      → IsDumped config x n
          (state_of (deliver ext x d marshal clock traces_url p raw s request reply ms found))
  unfolding deliver
  deliver-IsDumped p raw s none reply ms found h = record {
    config_kept = h.config_kept;
    files = h.files;
    number = h.number;
  }
  deliver-IsDumped p raw s (some body) reply ms found h =
      let e : Exporter = record p.exporter { rawdata = some raw; transactions = s.transactions } in
      let url = or_else s.url_app_id traces_url in
      let r = export x d e url (pointer found) reply in
      let kept = (export-keeps x d marshal url e (pointer found) reply).2 in
      written-IsDumped p r.exporter (write_found ms found r.mesure) url body
        (first_error p.error r.error) p.exporter.config.record_collecte
        (ap (λ (c : Config). c.record_collecte) (sym h.config_kept)) (kept ∙ h.config_kept) h

  push_round-IsDumped :
      (p : Pushing) (id : String) (reply : Reply)
      → IsDumped config x n p
      → Ensures
          (λ r. IsDumped config x n (state_of r))
          (push_round ext x d marshal clock traces_url p id reply)
  unfolding push_round
  push_round-IsDumped p id reply h = elim (Bool-cases (id == "")) [
    | inl e ↦ rw (e, push_round) (returned h)
    | inr e ↦
        rw (e, push_round)
          (Ensures-bind _
            (send_transactions ext p.exporter.config.timeout_buffer_transaction clock id
              p.exporter.rawdata p.exporter.transactions)
            _
            (λ r.
              count_round-inv ext x d marshal clock traces_url
                (λ r. IsDumped config x n (state_of r)) p id r.0 r.1 reply
                (λ request ms found. deliver-IsDumped p r.0 r.1 request reply ms found h)))
  ]

same_if : {A : Type 0} (b : Bool) (a : A) → a ≡ (if b then a else a)
same_if true a = refl
same_if false a = refl

-- When pushTraces returns, it has called os.WriteFile once for each body that it gave to `export`,
-- with that body, if the configuration asks for that: in the order of the bodies and under
-- consecutive numbers, starting with that of the push, whether or not the writes succeed. There are
-- no calls without that setting. The number of the next push follows.
pub push_traces-IsDumped :
    (env : Environment) (x : Externals) (d : Decoders)
    (marshal : EncodingType → RawData → Option String) (clock : ℕ → ℕ) (traces_url : String)
    (e : Exporter) (ms : List Mesure) (n : ℕ) (created : RawData) (rs : List Resource)
    (replies : ℕ → Reply)
    → Ensures
        (IsDumped e.config x n)
        (push_traces env x d marshal clock traces_url e ms n created rs replies)
unfolding push_traces
push_traces-IsDumped env x d marshal clock traces_url e ms n created rs replies =
    Ensures-bind _ (translate (record env { config = e.config }) rs _) _ (λ q.
      push_loop-inv env.ext x d marshal clock traces_url (IsDumped e.config x n)
        (push_round-IsDumped e.config env.ext x d marshal clock traces_url n) _
        (application_ids q.transactions) replies
        (record {
          config_kept = refl;
          files = same_if e.config.record_collecte [];
          number = same_if e.config.record_collecte n;
        }))
