-- ===== src/Objects/Terminal.antt =====
-- objects.rs: a resource that runs out is the end of the store.
use zebulon_lang.Objects.Owners.{create}
use zebulon_lang.Prelude.{
  ◌∙◌, ap, subst, leb, length, arith, ◌≤◌, ◌≡◌, refl, true, false, ok, err, [],
}
use zebulon_lang.Errors.{ref_eq_self, mem, resource_limit}
use zebulon_lang.Objects.{Store, returned}
use zebulon_lang.Objects.Ownership.{IsForest, without}
use zebulon_lang.Objects.Forest.{Forest, empty, plant, roots}
use zebulon_lang.Objects.Uproot.{destroy_lem}
use zebulon_lang.Objects.Destroy.{drain, clear_roots, resource_failure, destroy}

-- Destroying the roots one after the other leaves no record.
drain_lem : (f : Forest) (s : Store) → IsForest s f → (u : Store) × (drain (roots f) s ≡ (ok tt, u))
unfolding drain without mem
drain_lem empty s h = (s, refl)
drain_lem (plant o kids beside) s h =
    let same : without o (plant o kids beside) ≡ beside = rw (ref_eq_self o) refl in
    let (u, ran, forest, _, _, _) = destroy_lem h o (ground (arith, ref_eq_self o)) in
    let ran' : destroy o (record s { roots = roots beside }) ≡ (ok tt, u) =
      subst (λ w. destroy o (record s { roots = roots w }) ≡ (ok tt, u)) same ran in
    let (v, rest) = drain_lem beside u (subst (IsForest u) same forest) in (v, rw ran' rest)

module _ {s : Store} {f : Forest} (h : IsForest s f) where
  -- Creating a record beyond the limit of a store that is a forest is refused as `resource_limit`,
  -- and the store is terminal afterwards, with no record, root, or binding left.
  pub create-terminal :
      s.terminal ≡ false
      → s.limits.objects ≤ length s.records
      → (u : Store) × (create s ≡ (err (returned resource_limit), u))
        × (u.terminal ≡ true)
        × (u.records ≡ [])
        × (u.record_order ≡ [])
        × (u.roots ≡ [])
        × (u.statics ≡ [])
  unfolding create resource_failure clear_roots
  create-terminal active full =
      let (u, ran) = drain_lem f s h in
      let no_room : leb s.limits.objects (length s.records) ≡ true = ground arith in
      let drained : drain s.roots s ≡ (ok tt, u) = ap (λ rs. drain rs s) h.rooted ∙ ran in
      (
        record u {
          terminal = true;
          records = [];
          record_order = [];
          statics = [];
          cleanup = [];
          roots = [];
        },
        simp (active, no_room, drained) refl,
        refl,
        refl,
        refl,
        refl,
        refl,
      )
