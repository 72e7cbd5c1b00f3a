-- ===== src/Objects/Tests.antt =====
-- Runs and instances for the store of objects.
use zebulon_lang.Objects.Graft.{graft, occurs}
use zebulon_lang.Prelude.Maps.{contains_key, find}
use zebulon_lang.Prelude.{
  if◌then◌else◌, err, refl, ok, true, false, none, some, [], ◌∷◌, ◌≡◌, arith, List, ℕ,
}
use zebulon_lang.Prelude.Results.{◌>>=◌}
use zebulon_lang.Errors.{ownership_cycle, ref_eq, mem, ObjectRef, resource_limit, expired, handle}
use zebulon_lang.Objects.Stale.{Call, run, expired-run, create_call, set_call, release_turn_call}
use zebulon_lang.Objects.Adopted.{adopt-IsForest, adopt-cycle}
use zebulon_lang.Objects.Uproot.{destroy_root-IsForest}
use zebulon_lang.Objects.Grown.{create-IsForest}
use zebulon_lang.Objects.Definer.{lookup-definer, value_at}
use zebulon_lang.Objects.Terminal.{create-terminal}
use zebulon_lang.Objects.Owners.{adopt, new_store, created, create, fresh_record, destroy_root}
use zebulon_lang.Objects.Access.{
  descends, lookup_chain, definer_chain, record_of, reference, lookup, definer,
}
use zebulon_lang.Objects.Ownership.{kids_of, IsForest, IsNative, without, tree_of}
use zebulon_lang.Objects.Forest.{
  Forest, empty, plant, roots, has, Holds, IsApart, lists, IsAscending, IsDistinct,
}
use zebulon_lang.Objects.Kinds.{Decides, descends-Descends}
use zebulon_lang.Objects.{Limits, Store, Record, int_value, world, returned, refuse}
use zebulon_lang.Tables.Install.{fallback}
use zebulon_lang.Prelude.Int.{pos}

abbrev pub small : ℕ → Limits
small n = record { objects = n; properties = 9; string_bytes = 9 }

abbrev reference_at : ℕ → ℕ → ObjectRef
reference_at slot age = record { session = 1; logical = slot; incarnation = age }

abbrev pub owner : ObjectRef
owner = reference_at 1 1

abbrev pub owned : ObjectRef
owned = reference_at 2 2

abbrev owner_record : Record
owner_record = record (fresh_record 1 world) {
  children = owned ∷ [];
  properties = (7, int_value (pos 5)) ∷ [];
}

abbrev owned_record : Record
owned_record = record (fresh_record 2 world) { parent = some owner; prototypes = owner ∷ [] }

-- A record with one property that owns another, which inherits it, and a slot that was given back.
abbrev family : ℕ → Store
family n = record (new_store 1 (small n)) {
  next_identity = 4;
  records = (1, owner_record) ∷ (2, owned_record) ∷ [];
  record_order = 1 ∷ 2 ∷ [];
  free_slots = 3 ∷ [];
  roots = owner ∷ [];
  properties = 1;
  inheritance_edges = 1;
}

abbrev family_forest : Forest
family_forest = plant owner (plant owned empty empty) empty

family-IsForest : (n : ℕ) → IsForest (family n) family_forest
unfolding find Holds IsApart has IsNative lists IsAscending IsDistinct
family-IsForest n = record {
  rooted = refl;
  holds = (
    record {
      held = owner_record;
      here = refl;
      ages = refl;
      lives = refl;
      below = refl;
      owns = refl;
    },
    (
      record {
        held = owned_record;
        here = refl;
        ages = refl;
        lives = refl;
        below = refl;
        owns = refl;
      },
      tt,
      tt,
    ),
    tt,
  );
  apart = (refl, refl, (λ l e. refl), (refl, refl, (λ l e. absurd (cc e)), tt, tt), tt);
  complete = λ l. ground arith;
  native = (refl, (refl, tt, tt), tt);
  indexed = record {
    ascending = ((λ l e. ground arith), ((λ l e. absurd (cc e)), tt));
    lists_all = λ l. ground arith;
    distinct = (refl, tt);
    unused = λ l e. ground arith;
    issued = λ l e. ground arith;
  };
  idle = refl;
}

owner_is_root : mem (roots family_forest) owner ≡ true
unfolding mem ref_eq
owner_is_root = refl

destroy_root-IsForest_example :
    (u : Store) × (destroy_root owner (family 5) ≡ (ok tt, u))
    × IsForest u (without owner family_forest)
    × ((l : ℕ)
        → find u.records l
          ≡ (if has (tree_of owner family_forest) l then none else find (family 5).records l))
destroy_root-IsForest_example = destroy_root-IsForest (family-IsForest 5) owner refl owner_is_root

descends-Descends_example : Decides (family 5) owned owner (descends (family 5) owned owner)
unfolding record_of find
descends-Descends_example = descends-Descends (family 5) owned owner refl

create-IsForest_example :
    (u : Store) × (create (family 5) ≡ (ok (created (family 5)), u))
    × IsForest u (plant (created (family 5)) empty family_forest)
    × (has family_forest (created (family 5)).logical ≡ false)
    × (record_of u (created (family 5)) ≡ ok (fresh_record 4 world))
create-IsForest_example = create-IsForest (family-IsForest 5) refl (omega arith) (omega arith)

create-terminal_example :
    (u : Store) × (create (family 2) ≡ (err (returned resource_limit), u))
    × (u.terminal ≡ true)
    × (u.records ≡ [])
    × (u.record_order ≡ [])
    × (u.roots ≡ [])
    × (u.statics ≡ [])
create-terminal_example = create-terminal (family-IsForest 2) refl (omega arith)

lookup-definer_example :
    lookup (family 5) owned 7 none ≡ (definer (family 5) owned 7 >>= value_at (family 5) 7)
lookup-definer_example = lookup-definer (family 5) owned 7

-- The slot of an old reference goes to a new record.
abbrev calls : List Call
calls = create_call ∷ set_call owned 7 (int_value (pos 6)) ∷ release_turn_call ∷ []

expired-run_example :
    (record_of (run fallback calls (family 5)) (reference_at 3 3) ≡ refuse expired)
    × (reference (run fallback calls (family 5)) (handle (reference_at 3 3)) ≡ none)
unfolding record_of find
expired-run_example =
    expired-run fallback calls (family 5) (reference_at 3 3)
      (record { here = refl; logical_fits = omega arith; incarnation_fits = omega arith })
      (omega arith) refl

-- The property of the owner, found through the superclass, and the definer that answers it.
lookup_test : lookup (family 5) owned 7 none ≡ ok (some (int_value (pos 5)))
unfolding lookup lookup_chain record_of find
lookup_test = refl

definer_test : definer (family 5) owned 7 ≡ ok (some owner)
unfolding definer definer_chain record_of contains_key find
definer_test = refl

abbrev guest : ObjectRef
guest = reference_at 3 4

-- A third record, which nothing owns.
abbrev company : Store
company = record (family 5) {
  next_identity = 5;
  records =
      (1, owner_record)
      ∷ (2, owned_record)
      ∷ (3, record (fresh_record 4 world) { is_class = true })
      ∷ [];
  record_order = 1 ∷ 2 ∷ 3 ∷ [];
  free_slots = [];
  roots = guest ∷ owner ∷ [];
}

abbrev company_forest : Forest
company_forest = plant guest empty family_forest

company-IsForest : IsForest company company_forest
unfolding find Holds IsApart has IsNative lists IsAscending IsDistinct
company-IsForest = record {
  rooted = refl;
  holds = (
    record {
      held = record (fresh_record 4 world) { is_class = true };
      here = refl;
      ages = refl;
      lives = refl;
      below = refl;
      owns = refl;
    },
    tt,
    (
      record {
        held = owner_record;
        here = refl;
        ages = refl;
        lives = refl;
        below = refl;
        owns = refl;
      },
      (
        record {
          held = owned_record;
          here = refl;
          ages = refl;
          lives = refl;
          below = refl;
          owns = refl;
        },
        tt,
        tt,
      ),
      tt,
    ),
  );
  apart = (
    refl,
    refl,
    (λ l e. absurd (cc e)),
    tt,
    (refl, refl, (λ l e. refl), (refl, refl, (λ l e. absurd (cc e)), tt, tt), tt),
  );
  complete = λ l. ground arith;
  native = (refl, tt, (refl, (refl, tt, tt), tt));
  indexed = record {
    ascending = ((λ l e. ground arith), ((λ l e. ground arith), ((λ l e. absurd (cc e)), tt)));
    lists_all = λ l. ground arith;
    distinct = tt;
    unused = λ l e. absurd (cc e);
    issued = λ l e. ground arith;
  };
  idle = refl;
}

adopt-IsForest_example :
    (u : Store) × (adopt owned guest company ≡ (ok tt, u))
    × IsForest u (graft owned (tree_of guest company_forest) (without guest company_forest))
unfolding record_of find mem ref_eq occurs kids_of
adopt-IsForest_example =
    adopt-IsForest company-IsForest owned guest refl refl refl refl refl refl refl

adopt-cycle_example : adopt owned owner company ≡ (err (returned ownership_cycle), company)
unfolding record_of find mem ref_eq occurs kids_of
adopt-cycle_example = adopt-cycle company-IsForest owned owner refl refl refl refl refl refl refl
