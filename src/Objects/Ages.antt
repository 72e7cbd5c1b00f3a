-- ===== src/Objects/Ages.antt =====
-- objects.rs, time in the store: what a call can do to the records that are there.
pub mod Owners
pub mod Turns
pub mod Writes
use zebulon_lang.Prelude.{
  if◌then◌else◌, Bool, ℕ, zero, suc, ◌≤◌, ◌≡◌, refl, sym, ap, ◌∙◌, ◌⊎◌, inl, inr, true, false, some,
  List, [], ◌∷◌, Result, ok, err, arith, ◌==◌, Bool-cases, Option-cases, List-cases, length, ◌*◌,
  ==_iff,
}
use zebulon_lang.Prelude.Maps.{
  find, insert, remove, find-insert_self, find-insert_ne, find-remove_self, find-remove_ne,
}
use zebulon_lang.Prelude.Exec.{modify, asks, continue, ◌>>=◌}
use zebulon_lang.Errors.{Error, ObjectRef}
use zebulon_lang.Objects.{Record, Cleanup, enter, release, Store, Change, Fault}
use zebulon_lang.Objects.Destroy.{
  edit, released, revoked, remove_id, cleanup_step, cleanup_loop, destroy, drain, clear_roots,
  resource_failure,
}

-- The record was there before, in its slot and as live, or it is younger than the store was.
abbrev pub Traces : Store → ℕ → Record → Type 0
Traces s l r =
    ((q : Record) × (find s.records l ≡ some q) × (q.live ≡ true) × (q.incarnation ≡ r.incarnation))
    ⊎ (s.next_identity ≤ r.incarnation)

-- Nothing in `u` is as old as `s` but what lived in `s`.
pub record Ages (s u : Store) : Type 0 where
  pub session : u.session ≡ s.session
  pub later : s.next_identity ≤ u.next_identity
  pub aged : (l : ℕ) (r : Record) → find u.records l ≡ some r → r.live ≡ true → Traces s l r

pub Ages-refl : (s : Store) → Ages s s
Ages-refl s = record {
  session = refl;
  later = omega arith;
  aged = λ l r here lives. inl (r, here, lives, refl);
}

pub Ages-trans : {s u v : Store} → Ages s u → Ages u v → Ages s v
Ages-trans {s} {u} {v} a b = record {
  session = b.session ∙ a.session;
  later = omega (arith, a.later, b.later);
  aged = λ l r here lives. elim (b.aged l r here lives) [
    | inr young ↦ inr (omega (arith, a.later, young))
    | inl (q, there, lived, same) ↦ elim (a.aged l q there lived) [
      | inl (q', earlier, had_lived, same') ↦ inl (q', earlier, had_lived, same' ∙ same)
      | inr young ↦ inr (omega (arith, young, same))
    ]
  ];
}

-- A call whose every run ages the store.
abbrev pub IsAging : {A : Type 0} → Change A → Type 0
IsAging m = (s : Store) → Ages s (m s).1

pub continue-IsAging :
    {A B : Type 0} {s u : Store} (x : Result Fault A) (f : A → Change B)
    → Ages s u
    → ((a : A) → IsAging (f a))
    → Ages s (continue x f u).1
continue-IsAging (ok a) f first rest = Ages-trans first (rest a _)
continue-IsAging (err e) f first rest = first

pub bind-IsAging :
    {A B : Type 0} (m : Change A) (f : A → Change B)
    → IsAging m
    → ((a : A) → IsAging (f a))
    → IsAging (m >>= f)
bind-IsAging m f first rest s = continue-IsAging (m s).0 f (first s) rest

-- A change that leaves the records and the counter alone.
pub Ages-aside :
    {s u : Store}
    → u.session ≡ s.session
    → u.next_identity ≡ s.next_identity
    → u.records ≡ s.records
    → Ages s u
Ages-aside {s} {u} same next records = record {
  session = same;
  later = omega (arith, next);
  aged = λ l r here lives. inl (r, ap (λ m. find m l) (sym records) ∙ here, lives, refl);
}

-- A record that is written again in its slot, no younger, and alive only if it was.
pub Ages-insert :
    {s u : Store} (o : ObjectRef) (r r' : Record)
    → u.session ≡ s.session
    → u.next_identity ≡ s.next_identity
    → find s.records o.logical ≡ some r
    → u.records ≡ insert o.logical r' s.records
    → r.incarnation ≡ r'.incarnation
    → (r'.live ≡ true → r.live ≡ true)
    → Ages s u
Ages-insert {s} {u} o r r' same next here records age lives = record {
  session = same;
  later = omega (arith, next);
  aged = λ l q found alive. elim (Bool-cases (o.logical == l)) [
    | inl at ↦
        let at' : o.logical ≡ l = (==_iff o.logical l).0 at in
        let is : r' ≡ q = cc (find-insert_self s.records o.logical r', at', found, records) in
        inl (
          r,
          ap (λ k. find s.records k) (sym at') ∙ here,
          lives (ap (λ (x : Record). x.live) is ∙ alive),
          age ∙ ap (λ (x : Record). x.incarnation) is,
        )
    | inr other ↦ inl (
      q,
      sym (find-insert_ne s.records o.logical l r' other)
          ∙ ap (λ m. find m l) (sym records)
          ∙ found,
      alive,
      refl,
    )
  ];
}

pub Ages-remove :
    {s u : Store} (k : ℕ)
    → u.session ≡ s.session
    → u.next_identity ≡ s.next_identity
    → u.records ≡ remove k s.records
    → Ages s u
Ages-remove {s} {u} k same next records = record {
  session = same;
  later = omega (arith, next);
  aged = λ l q found alive. elim (Bool-cases (k == l)) [
    | inl at ↦
        let at' : k ≡ l = (==_iff k l).0 at in
        absurd (cc (find-remove_self s.records k, at', found, records))
    | inr other ↦ inl (
      q,
      sym (find-remove_ne s.records k l other) ∙ ap (λ m. find m l) (sym records) ∙ found,
      alive,
      refl,
    )
  ];
}

pub edit-IsAging :
    (o : ObjectRef) (f : Record → Record)
    → ((r : Record) → (r.incarnation ≡ (f r).incarnation) × ((f r).live ≡ r.live))
    → IsAging (edit o f)
unfolding edit
edit-IsAging o f keeps s = elim (Option-cases (find s.records o.logical)) [
  | inl gone ↦ rw (gone, edit) (Ages-refl s)
  | inr (r, here) ↦
      rw (here, edit)
        (Ages-insert o r (f r) refl refl here refl (keeps r).0 (λ lives. sym (keeps r).1 ∙ lives))
]

step-IsAging : (c : Cleanup) → IsAging (cleanup_step c)
unfolding cleanup_step revoked released
step-IsAging (enter o) s = elim (Option-cases (find s.records o.logical)) [
  | inl gone ↦ rw (gone, cleanup_step) (Ages-refl s)
  | inr (r, here) ↦
      rw (here, cleanup_step)
        (Ages-insert o r (record r { live = false }) refl refl here refl refl (λ e. cc))
]
step-IsAging (release o) s = elim (Option-cases (find s.records o.logical)) [
  | inl gone ↦ rw (gone, cleanup_step) (Ages-refl s)
  | inr (r, here) ↦
      rw (here, cleanup_step)
        (elim (Option-cases (remove_id o.logical s.record_order)) [
          | inl lost ↦ rw (lost, cleanup_step) (Ages-remove o.logical refl refl refl)
          | inr (order, kept) ↦ rw (kept, cleanup_step) (Ages-remove o.logical refl refl refl)
        ])
]

loop-IsAging : (n : ℕ) → IsAging (cleanup_loop n)
unfolding cleanup_loop
loop-IsAging zero s = Ages-refl s
loop-IsAging (suc n) s = elim (List-cases s.cleanup) [
  | inl done ↦ simp (done, cleanup_loop) (Ages-refl s)
  | inr (step, rest, e) ↦ rw e (
      Ages-trans {u = record s { cleanup = rest }} (Ages-aside refl refl refl) (
        bind-IsAging (cleanup_step step) (λ _. cleanup_loop n) (step-IsAging step)
          (λ _. loop-IsAging n) (record s { cleanup = rest })))
]

pub destroy-IsAging : (o : ObjectRef) → IsAging (destroy o)
unfolding destroy
destroy-IsAging o s =
    let u = record s { cleanup = enter o ∷ s.cleanup } in
    Ages-trans {u = u} (Ages-aside refl refl refl) (loop-IsAging (suc (2 * length s.records)) u)

pub drain-IsAging : (roots : List ObjectRef) → IsAging (drain roots)
unfolding drain
drain-IsAging [] s = Ages-refl s
drain-IsAging (o ∷ rest) s = Ages-trans (Ages-aside refl refl refl) (
    bind-IsAging (destroy o) (λ _. drain rest) (destroy-IsAging o) (λ _. drain-IsAging rest)
      (record s { roots = rest }))

pub failure-IsAging : (A : Type 0) (e : Error) → IsAging (resource_failure {A = A} e)
unfolding resource_failure clear_roots find
failure-IsAging A e s =
    bind-IsAging clear_roots _ (λ s. drain-IsAging s.roots s)
      (λ _ s. record {
        session = refl;
        later = omega arith;
        aged = λ l r here lives. absurd (cc here);
      })
      s

pub asks-IsAging : {A : Type 0} (f : Store → Result Fault A) → IsAging (asks f)
asks-IsAging f s = Ages-refl s

pub if-Ages :
    {A : Type 0} {s : Store} (b : Bool) (x y : Result Fault A × Store)
    → Ages s x.1
    → Ages s y.1
    → Ages s (if b then x else y).1
if-Ages true x y p q = p
if-Ages false x y p q = q

pub if-IsAging :
    {A : Type 0} (b : Bool) (m n : Change A) → IsAging m → IsAging n → IsAging (if b then m else n)
if-IsAging true m n p q = p
if-IsAging false m n p q = q

pub modify-IsAging :
    (f : Store → Store)
    → ((s : Store)
        → ((f s).session ≡ s.session)
          × ((f s).next_identity ≡ s.next_identity)
          × ((f s).records ≡ s.records))
    → IsAging (modify f)
modify-IsAging f keeps s = Ages-aside (keeps s).0 (keeps s).1 (keeps s).2
