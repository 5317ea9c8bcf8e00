-- ===== src/Adapters/Refine.antt =====
-- The hub against a client that is built anew at every call.
use jean_fourche.Base.{
  ℕ, String, Bool, true, false, ◌≡◌, refl, ap, sym, ◌∙◌, Option, none, some, List, [], ◌∷◌, map,
  ◌==◌, if◌then◌else◌, arith, ==_iff, All,
}
use jean_fourche.Adapters.Hub.{
  Settings, Integration, Core, Key, hub_get, hub_set, hub_pop, Hub, get_core, get_cores,
  current_core, build_adapter_core, set_core_cls, to_dictionary, get_hash,
}

module _ {V : Type 0} (as_text safe_eval : String → V) (hash : Settings V → ℕ) where
  -- A core is of the store that its key names, and its hash is that of its settings.
  abbrev IsGood : Key × Core V → Type 0
  IsGood (k, core) = (core.integration_id ≡ k.0) × (core.adapter_hash ≡ hash core.settings)

  hub_get-IsGood :
      (k : Key) (d : Hub V) (core : Core V)
      → All IsGood d
      → hub_get k d ≡ some core
      → IsGood (k, core)
  hub_get-IsGood k [] core h e = ground arith
  hub_get-IsGood (a, b) (((i, p), c) ∷ d) core h e =
      ground (arith, hub_get-IsGood (a, b) d core h.1)

  hub_set-IsGood :
      (k : Key) (core : Core V) (d : Hub V)
      → IsGood (k, core)
      → All IsGood d
      → All IsGood (hub_set k core d)
  hub_set-IsGood k core [] g h = (g, tt)
  hub_set-IsGood (a, b) core (((i, p), c) ∷ d) g h =
      ground (arith, hub_set-IsGood (a, b) core d g h.1)

  hub_pop-IsGood : (k : Key) (d : Hub V) → All IsGood d → All IsGood (hub_pop k d)
  hub_pop-IsGood k [] h = tt
  hub_pop-IsGood k ((j, c) ∷ d) h = ground (arith, hub_pop-IsGood k d)

  -- What a caller can tell of a core: its store, and the hash of the settings that it works with.
  abbrev pub seen : Core V → ℕ × ℕ
  seen core = (core.integration_id, hash core.settings)

  abbrev IsCurrent : Integration → Core V × Hub V → Type 0
  IsCurrent i r = (seen r.0 ≡ seen (build_adapter_core as_text safe_eval hash i)) × All IsGood r.1

  current_core-IsCurrent :
      (pid : ℕ) (i : Integration) (d : Hub V) (o : Option (Core V))
      → All IsGood d
      → hub_get (i.id, pid) d ≡ o
      → IsCurrent i (current_core as_text safe_eval hash i (i.id, pid) d o)
  current_core-IsCurrent pid i d none h e = (
    refl,
    hub_set-IsGood (i.id, pid) (build_adapter_core as_text safe_eval hash i) d (refl, refl) h,
  )
  current_core-IsCurrent pid i d (some core) h e =
      by_hash (core.adapter_hash == get_hash as_text safe_eval hash i) refl
    where
      by_hash :
          (b : Bool)
          → (core.adapter_hash == get_hash as_text safe_eval hash i) ≡ b
          → IsCurrent i (
              if b
              then (core, d)
              else set_core_cls as_text safe_eval hash i (i.id, pid) (hub_pop (i.id, pid) d))
      by_hash true t =
          let g : IsGood ((i.id, pid), core) = hub_get-IsGood (i.id, pid) d core h e in
          let s : hash core.settings ≡ hash (to_dictionary as_text safe_eval hash i) =
            sym g.1 ∙ (==_iff core.adapter_hash (get_hash as_text safe_eval hash i)).0 t in
          (ap (λ n. (n, hash core.settings)) g.0 ∙ ap (λ n. (i.id, n)) s, h)
      by_hash false f = (
        refl,
        hub_set-IsGood (i.id, pid) (build_adapter_core as_text safe_eval hash i)
            (hub_pop (i.id, pid) d) (refl, refl) (hub_pop-IsGood (i.id, pid) d h),
      )

  get_core-IsCurrent :
      (pid : ℕ) (i : Integration) (d : Hub V)
      → All IsGood d
      → IsCurrent i (get_core as_text safe_eval hash pid i d)
  unfolding get_core
  get_core-IsCurrent pid i d h = current_core-IsCurrent pid i d (hub_get (i.id, pid) d) h refl

  get_cores-good :
      (calls : List (ℕ × Integration)) (d : Hub V)
      → All IsGood d
      → map seen (get_cores as_text safe_eval hash calls d)
        ≡ map (λ call. seen (build_adapter_core as_text safe_eval hash call.1)) calls
  get_cores-good [] d h = refl
  get_cores-good ((pid, i) ∷ calls) d h =
      let now : IsCurrent i (get_core as_text safe_eval hash pid i d) =
        get_core-IsCurrent pid i d h in
      ap
        (λ c.
          c
          ∷ map seen
              (get_cores as_text safe_eval hash calls (get_core as_text safe_eval hash pid i d).1))
        now.0
      ∙ ap (λ cs. seen (build_adapter_core as_text safe_eval hash i) ∷ cs)
          (get_cores-good calls (get_core as_text safe_eval hash pid i d).1 now.1)

  -- Whatever the processes call and however the settings change between the calls, the hub gives, from
  -- empty, the same as a core that is built anew for each call, as far as the store and the hash of its
  -- settings tell.
  pub get_cores-refines :
      (calls : List (ℕ × Integration))
      → map seen (get_cores as_text safe_eval hash calls [])
        ≡ map (λ call. seen (build_adapter_core as_text safe_eval hash call.1)) calls
  get_cores-refines calls = get_cores-good calls [] tt
