-- ===== src/RuntimeConfig/Refresh/Reloading.antt =====
-- Which configuration is in force after the calls of cmd/proxy/runtimeconfig/manager.go.
use lhotse_agent.Prelude.{
  ◌≡◌, refl, ◌↔◌, inl, inr, true, false, List, [], ◌∷◌, Option, none, some, Str, codes, is_empty,
  trim_space, Bool-cases, In, here, there,
}
use lhotse_agent.Net.{Net}
use lhotse_agent.Remote.{
  good, Fetched, body, fetch_error, bad_status, SaveFault, no_fault, mkdir_fails, temp_fails,
  write_fails, close_fails, rename_fails, Disk,
}
use lhotse_agent.RuntimeConfig.{
  Document, Compiled, Manager, World, Error, Outcome, done, failed, compile, covers, normalize_host,
  mitm_enabled_for_host,
}
use lhotse_agent.RuntimeConfig.Refresh.{
  Stepped, set_config, set_error, enabled, parse, parse_document, fetch, save_cache, write_cache,
  apply_config, apply_fetched, reload, LoopEvent, tick, stop, refresh_loop,
}
use lhotse_agent.RuntimeConfig.Hosts.{Selects, covers_iff}

-- The disk is as it was, or its cache file alone has a new content.
pub data Saved (d : Disk) (text : Str) : Disk → Type 0 where
  unchanged : Saved d text d
  written : Saved d text (record d { cache = some text })

-- The ways in which a reload ends. A failure changes the error alone; a success installs the
-- configuration that the fetched body holds.
pub data Reloads (w : World) (m : Manager) (d : Disk) : Stepped → Type 0 where
  switched_off :
      enabled m ≡ false → Reloads w m d (record { manager = m; disk = d; result = done tt })
  kept :
      (e : Error)
      → Reloads w m d
          (record { manager = record m { last_error = some e }; disk = d; result = failed e })
  replaced :
      (text : Str) (c : Compiled) (d' : Disk)
      → is_empty (trim_space m.options.agent_id) ≡ false
      → fetch w m ≡ body text
      → parse w text ≡ done c
      → Saved d text d'
      → Reloads w m d (record {
        manager = record m {
          cfg = some c;
          source = codes "remote";
          last_refresh = some w.now;
          last_error = none;
        };
        disk = d';
        result = done tt;
      })

write_cache-Saved : (f : SaveFault) (text : Str) (d : Disk) → Saved d text (write_cache f text d)
unfolding write_cache
write_cache-Saved no_fault text d = written
write_cache-Saved mkdir_fails text d = unchanged
write_cache-Saved temp_fails text d = unchanged
write_cache-Saved write_fails text d = unchanged
write_cache-Saved close_fails text d = unchanged
write_cache-Saved rename_fails text d = unchanged

save_cache-Saved :
    (w : World) (m : Manager) (text : Str) (d : Disk) → Saved d text (save_cache w m text d)
unfolding save_cache
save_cache-Saved w m text d = elim (Bool-cases (is_empty m.options.cache_file)) [
  | inl no_file ↦ rw no_file unchanged
  | inr file ↦ rw file (write_cache-Saved w.save_fault text d)
]

module _ (w : World) (m : Manager) (d : Disk) where
  apply_config-Reloads :
      (text : Str) (r : Outcome Compiled)
      → is_empty (trim_space m.options.agent_id) ≡ false
      → fetch w m ≡ body text
      → parse w text ≡ r
      → Reloads w m d (apply_config w text m d r)
  unfolding apply_config set_config set_error
  apply_config-Reloads text (failed e) agent ef ep = kept e
  apply_config-Reloads text (done c) agent ef ep =
      replaced text c _ agent ef ep (save_cache-Saved w _ text d)

  apply_fetched-Reloads :
      (f : Fetched)
      → is_empty (trim_space m.options.agent_id) ≡ false
      → fetch w m ≡ f
      → Reloads w m d (apply_fetched w m d f)
  unfolding apply_fetched set_error
  apply_fetched-Reloads (fetch_error e) agent ef = kept _
  apply_fetched-Reloads (bad_status n) agent ef = kept _
  apply_fetched-Reloads (body text) agent ef =
      apply_config-Reloads text (parse w text) agent ef refl

-- Reload is all or nothing: when it returns an error, a missing agent id among them, the manager
-- keeps its configuration, source and refresh time, records the error and leaves the disk alone;
-- when it returns none and the manager is enabled, the configuration in force is the one parsed
-- from the body just fetched, no temporary file is left, and the cache file holds that body or what
-- it held before.
pub reload-Reloads : (w : World) (m : Manager) (d : Disk) → Reloads w m d (reload w m d)
unfolding reload set_error
reload-Reloads w m d = elim (Bool-cases (enabled m)) [
  | inr off ↦ rw off (switched_off off)
  | inl on ↦ elim (Bool-cases (is_empty (trim_space m.options.agent_id))) [
    | inl no_agent ↦ rw (on, no_agent) (kept _)
    | inr agent ↦ rw (on, agent) (apply_fetched-Reloads w m d (fetch w m) agent refl)
  ]
]

-- A fetch that brings a document which decodes: the configuration after the reload.
reload-replaces :
    (w : World) (m : Manager) (d : Disk) (text : Str) (doc : Document)
    → enabled m ≡ true
    → is_empty (trim_space m.options.agent_id) ≡ false
    → fetch w m ≡ body text
    → w.unmarshal text ≡ good doc
    → (reload w m d).manager.cfg ≡ some (compile w.net doc)
unfolding reload apply_fetched apply_config set_config parse parse_document
reload-replaces w m d text doc on agent ef ed = rw (on, agent, ef, ed) refl

mitm_enabled-covers :
    (net : Net) (m : Manager) (c : Compiled) (raw : Str)
    → m.cfg ≡ some c
    → is_empty (normalize_host net raw) ≡ false
    → mitm_enabled_for_host net m raw ≡ covers c (normalize_host net raw)
unfolding mitm_enabled_for_host
mitm_enabled-covers net m c raw e named = rw (named, e) refl

-- After a reload of an enabled manager with an agent id that fetched a document, TLS to a host with
-- a name is intercepted exactly when one of the document's hosts selects the normalised host: it is
-- that host, or a wildcard whose suffix the host equals or lies under.
pub mitm_enabled-reload :
    (w : World) (m : Manager) (d : Disk) (text : Str) (doc : Document) (raw : Str)
    → enabled m ≡ true
    → is_empty (trim_space m.options.agent_id) ≡ false
    → fetch w m ≡ body text
    → w.unmarshal text ≡ good doc
    → is_empty (normalize_host w.net raw) ≡ false
    → (mitm_enabled_for_host w.net (reload w m d).manager raw ≡ true)
      ↔ Selects w.net doc.mitm_hosts (normalize_host w.net raw)
mitm_enabled-reload w m d text doc raw on agent ef ed named =
    rw
      (mitm_enabled-covers w.net (reload w m d).manager (compile w.net doc) raw
        (reload-replaces w m d text doc on agent ef ed) named)
      (covers_iff w.net doc (normalize_host w.net raw) named)

-- The configuration of a manager is its own, or was parsed from a body that some tick fetched.
pub data Holds (es : List LoopEvent) (m : Manager) : Option Compiled → Type 0 where
  initial : Holds es m m.cfg
  fetched :
      (w : World) (k : Manager) (text : Str) (c : Compiled)
      → In (tick w) es
      → fetch w k ≡ body text
      → parse w text ≡ done c
      → Holds es m (some c)

Holds-there :
    {es : List LoopEvent} {m m' : Manager} {o : Option Compiled} (e : LoopEvent)
    → Holds (e ∷ es) m m'.cfg
    → Holds es m' o
    → Holds (e ∷ es) m o
Holds-there e before initial = before
Holds-there e before (fetched w k text c i f h) = fetched w k text c (there e i) f h

Reloads-Holds :
    (es : List LoopEvent) (w : World) (m : Manager) (d : Disk) {r : Stepped}
    → Reloads w m d r
    → Holds (tick w ∷ es) m r.manager.cfg
Reloads-Holds es w m d (switched_off off) = initial
Reloads-Holds es w m d (kept e) = initial
Reloads-Holds es w m d (replaced text c d' agent ef ep saved) = fetched w m text c (here es) ef ep

-- Through any sequence of ticks of the refresh loop, failures included, the configuration in force
-- is the one before the loop or was parsed from a body that one of its ticks fetched.
pub refresh_loop-Holds :
    (es : List LoopEvent) (m : Manager) (d : Disk) → Holds es m (refresh_loop es m d).0.cfg
unfolding refresh_loop
refresh_loop-Holds [] m d = initial
refresh_loop-Holds (stop ∷ es) m d = initial
refresh_loop-Holds (tick w ∷ es) m d =
    let r = reload w m d in
    Holds-there (tick w) (Reloads-Holds es w m d (reload-Reloads w m d))
      (refresh_loop-Holds es r.manager r.disk)
