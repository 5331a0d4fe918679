-- ===== src/DomainPolicy/Manager/Freshness.antt =====
-- Which policy is in force after the calls of cmd/proxy/domainpolicy/manager.go.
use lhotse_agent.Prelude.{
  ◌≡◌, refl, sym, ap, ◌∙◌, inl, inr, true, false, List, [], ◌∷◌, Option, none, some, arith, Str,
  codes, is_empty, trim_space, Bool-cases, In, here, there,
}
use lhotse_agent.Remote.{Fetched, body, fetch_error, bad_status, cached, no_fault, Disk}
use lhotse_agent.DomainPolicy.{Policy}
use lhotse_agent.DomainPolicy.Manager.{
  Manager, World, Error, Outcome, done, failed, Stepped, set_policy, set_error, enabled, parse,
  fetch, save_cache, write_cache, apply_policy, apply_fetched, reload, load_parsed, load_read,
  load_cache, resolve_ip, start, LoopEvent, tick, stop, refresh_loop,
}

-- The ways in which a reload ends. A failure changes the error alone; a success installs the
-- policy that the fetched body holds, and clears the error whether or not the cache is written.
pub data Reloaded (w : World) (m : Manager) (d : Disk) : Stepped → Type 0 where
  switched_off :
      enabled m ≡ false → Reloaded w m d (record { manager = m; disk = d; result = done tt })
  kept :
      (e : Error)
      → Reloaded w m d
          (record { manager = record m { last_error = some e }; disk = d; result = failed e })
  replaced :
      (text : Str) (p : Policy)
      → fetch w m ≡ body text
      → parse w text ≡ done p
      → (d' : Disk)
      → Reloaded w m d (record {
        manager = record m {
          policy = some p;
          source = codes "remote";
          last_refresh = some w.now;
          last_error = none;
        };
        disk = d';
        result = done tt;
      })

apply_policy-Reloaded :
    (w : World) (text : Str) (m : Manager) (d : Disk) (r : Outcome Policy)
    → fetch w m ≡ body text
    → parse w text ≡ r
    → Reloaded w m d (apply_policy w text m d r)
unfolding apply_policy set_policy set_error
apply_policy-Reloaded w text m d (failed e) ef ep = kept e
apply_policy-Reloaded w text m d (done p) ef ep = replaced text p ef ep _

apply_fetched-Reloaded :
    (w : World) (m : Manager) (d : Disk) (f : Fetched)
    → fetch w m ≡ f
    → Reloaded w m d (apply_fetched w m d f)
unfolding apply_fetched set_error
apply_fetched-Reloaded w m d (fetch_error e) ef = kept _
apply_fetched-Reloaded w m d (bad_status n) ef = kept _
apply_fetched-Reloaded w m d (body text) ef =
    apply_policy-Reloaded w text m d (parse w text) ef refl

-- Reload is all or nothing: when it returns an error the manager keeps its policy, its source and
-- its refresh time, records the error and leaves the disk alone; when it returns none and the
-- manager is enabled, the policy in force is the one parsed from the body just fetched.
pub reload-Reloaded : (w : World) (m : Manager) (d : Disk) → Reloaded w m d (reload w m d)
unfolding reload set_error
reload-Reloaded w m d = elim (Bool-cases (enabled m)) [
  | inr off ↦ rw off (switched_off off)
  | inl on ↦ elim (Bool-cases (is_empty (trim_space m.options.app_name))) [
    | inl no_app ↦ rw (on, no_app) (kept _)
    | inr app ↦ elim (Bool-cases (is_empty (trim_space m.options.instance_ip))) [
      | inl no_ip ↦ rw (on, app, no_ip) (kept _)
      | inr ip ↦ rw (on, app, ip) (apply_fetched-Reloaded w m d (fetch w m) refl)
    ]
  ]
]

-- The policy of a manager is its own, or was parsed from a body that some tick fetched.
pub data Held (es : List LoopEvent) (m : Manager) : Option Policy → Type 0 where
  initial : Held es m m.policy
  fetched :
      (w : World) (k : Manager) (text : Str) (p : Policy)
      → In (tick w) es
      → fetch w k ≡ body text
      → parse w text ≡ done p
      → Held es m (some p)

Held-there :
    {es : List LoopEvent} {m m' : Manager} {o : Option Policy} (e : LoopEvent)
    → Held (e ∷ es) m m'.policy
    → Held es m' o
    → Held (e ∷ es) m o
Held-there e before initial = before
Held-there e before (fetched w k text p i f h) = fetched w k text p (there e i) f h

Reloaded-Held :
    (es : List LoopEvent) (w : World) (m : Manager) (d : Disk) {r : Stepped}
    → Reloaded w m d r
    → Held (tick w ∷ es) m r.manager.policy
Reloaded-Held es w m d (switched_off off) = initial
Reloaded-Held es w m d (kept e) = initial
Reloaded-Held es w m d (replaced text p ef ep d') = fetched w m text p (here es) ef ep

-- Through any sequence of ticks of the refresh loop, failures included, the policy in force is the
-- one before the loop or was parsed from a body that one of its ticks fetched.
pub refresh_loop-Held :
    (es : List LoopEvent) (m : Manager) (d : Disk) → Held es m (refresh_loop es m d).0.policy
unfolding refresh_loop
refresh_loop-Held [] m d = initial
refresh_loop-Held (stop ∷ es) m d = initial
refresh_loop-Held (tick w ∷ es) m d =
    let r = reload w m d in
    Held-there (tick w) (Reloaded-Held es w m d (reload-Reloaded w m d))
      (refresh_loop-Held es r.manager r.disk)

-- A fetch that brings a document which parses: the manager and the disk after the reload.
pub reload-replaces :
    (w : World) (m : Manager) (d : Disk) (text : Str) (p : Policy)
    → enabled m ≡ true
    → is_empty (trim_space m.options.app_name) ≡ false
    → is_empty (trim_space m.options.instance_ip) ≡ false
    → fetch w m ≡ body text
    → parse w text ≡ done p
    → ((reload w m d).manager.policy ≡ some p) × ((reload w m d).disk ≡ save_cache w m text d)
unfolding reload apply_fetched apply_policy set_policy save_cache
reload-replaces w m d text p on app ip ef ep = rw (on, app, ip, ef, ep) (refl, refl)

save_cache-writes :
    (w : World) (m : Manager) (text : Str) (d : Disk)
    → is_empty m.options.cache_file ≡ false
    → w.save_fault ≡ no_fault
    → (save_cache w m text d).cache ≡ some text
unfolding save_cache write_cache
save_cache-writes w m text d file saved = rw (file, saved)

-- Such a reload leaves the body in the cache file, where it can be written.
pub reload-writes :
    (w : World) (m : Manager) (d : Disk) (text : Str) (p : Policy)
    → enabled m ≡ true
    → is_empty (trim_space m.options.app_name) ≡ false
    → is_empty (trim_space m.options.instance_ip) ≡ false
    → is_empty m.options.cache_file ≡ false
    → fetch w m ≡ body text
    → parse w text ≡ done p
    → w.save_fault ≡ no_fault
    → (reload w m d).disk.cache ≡ some text
reload-writes w m d text p on app ip file ef ep saved =
    ap (λ (x : Disk). x.cache) (reload-replaces w m d text p on app ip ef ep).1
    ∙ save_cache-writes w m text d file saved

load_cache-reads :
    (w : World) (m : Manager) (text : Str) (p : Policy)
    → is_empty m.options.cache_file ≡ false
    → w.read_cache ≡ cached text
    → parse w text ≡ done p
    → ((load_cache w m).policy ≡ some p) × ((load_cache w m).source ≡ codes "cache")
unfolding load_cache load_read load_parsed set_policy parse
load_cache-reads w m text p file read ep = rw (file, read, ep) (refl, refl)

-- After a reload that installed a policy and could write the cache, a manager that starts later
-- with a cache file, reads the content that the reload left and decodes it alike, loads the same
-- policy.
pub load_cache-reload :
    (w w' : World) (m m' : Manager) (d : Disk) (text : Str) (p : Policy)
    → enabled m ≡ true
    → is_empty (trim_space m.options.app_name) ≡ false
    → is_empty (trim_space m.options.instance_ip) ≡ false
    → is_empty m.options.cache_file ≡ false
    → is_empty m'.options.cache_file ≡ false
    → fetch w m ≡ body text
    → parse w text ≡ done p
    → w.save_fault ≡ no_fault
    → ((s : Str) → (reload w m d).disk.cache ≡ some s → w'.read_cache ≡ cached s)
    → parse w' text ≡ parse w text
    → (load_cache w' m').policy ≡ (reload w m d).manager.policy
load_cache-reload w w' m m' d text p on app ip file file' ef ep saved reads alike =
    let left = reload-writes w m d text p on app ip file ef ep saved in
    (load_cache-reads w' m' text p file' (reads text left) (alike ∙ ep)).0
    ∙ sym (reload-replaces w m d text p on app ip ef ep).0

resolve_ip-cache_file :
    (w : World) (m : Manager) → (resolve_ip w m).options.cache_file ≡ m.options.cache_file
unfolding resolve_ip set_error
resolve_ip-cache_file w m = ground arith

abbrev pub FromCache : Policy → Manager → Type 0
FromCache p m = (m.policy ≡ some p) × (m.source ≡ codes "cache")

Reloaded-FromCache :
    (w : World) (m : Manager) (d : Disk) (p : Policy) {r : Stepped}
    → ((text : Str) (q : Policy) → fetch w m ≡ body text → parse w text ≡ done q → ⊥)
    → FromCache p m
    → Reloaded w m d r
    → FromCache p r.manager
Reloaded-FromCache w m d p broken c (switched_off off) = c
Reloaded-FromCache w m d p broken c (kept e) = c
Reloaded-FromCache w m d p broken c (replaced text q ef ep d') = absurd (broken text q ef ep)

-- Where the cache file holds a document that parses and no document that parses can be fetched, an
-- enabled manager starts with the cached policy in force.
pub start-FromCache :
    (w w' : World) (m : Manager) (d : Disk) (text : Str) (p : Policy)
    → enabled m ≡ true
    → is_empty m.options.cache_file ≡ false
    → w.read_cache ≡ cached text
    → parse w text ≡ done p
    → ((k : Manager) (s : Str) (q : Policy) → fetch w' k ≡ body s → parse w' s ≡ done q → ⊥)
    → FromCache p (start w w' m d).0
unfolding start
start-FromCache w w' m d text p on file read ep broken =
    let resolved = resolve_ip w m in
    let loaded = load_cache w resolved in
    let from_cache : FromCache p loaded =
      load_cache-reads w resolved text p (ap is_empty (resolve_ip-cache_file w m) ∙ file) read ep in
    rw on
      (Reloaded-FromCache w' loaded d p (broken loaded) from_cache (reload-Reloaded w' loaded d))
