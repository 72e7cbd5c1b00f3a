-- ===== src/Prelude/Codec.antt =====
-- Readers over bytes: a call that reads a value off its bytes, and such calls in sequence.
use Prim.Native.Nat.{ℕ, ◌+◌, ◌≤◌}
use mathlib.Core.Path.{◌≡◌, refl, sym, ap, ap₂, ◌∙◌}
use mathlib.Core.List.{List, [], ◌++◌, append_assoc}
use native.Mathlib.Omega.{arith}
use zebulon_lang.Prelude.Lists.{length, length-append}
use zebulon_lang.Prelude.Results.{Result, ok, err}
use zebulon_lang.Prelude.Exec.{Method, pure, continue, ◌>>=◌}

-- The bytes, and how far they are read.
pub record Reader : Type 0 where
  pub bytes : List ℕ
  pub at : ℕ

abbrev pub Read : Type 0 → Type 0 → Type 0
Read E A = Method Reader E A

module _ {E : Type 0} (limit : ℕ) where
  -- A call reads this value off these bytes, wherever they stand.
  abbrev pub Reads : {A : Type 0} → Read E A → List ℕ → A → Type 0
  Reads m bs a =
      (pre post : List ℕ)
      → length (pre ++ (bs ++ post)) ≤ limit
      → m (record { bytes = pre ++ (bs ++ post); at = length pre })
        ≡ (ok a, record { bytes = pre ++ (bs ++ post); at = length pre + length bs })

  pub Reads-pure : {A : Type 0} (a : A) → Reads (pure a) [] a
  Reads-pure a pre post h = ap (λ k. (ok a, record { bytes = pre ++ post; at = k })) (omega arith)

  pub Reads-then :
      {A B : Type 0} (m : Read E A) (f : A → Read E B) (bs cs : List ℕ) (a : A) (b : B)
      → Reads m bs a
      → Reads (f a) cs b
      → Reads (m >>= f) (bs ++ cs) b
  Reads-then {A = A} m f bs cs a b hm hf pre post h =
      let regroup : pre ++ ((bs ++ cs) ++ post) ≡ pre ++ (bs ++ (cs ++ post)) =
        ap (λ l. pre ++ l) (append_assoc bs cs post) in
      let regroup' : (pre ++ bs) ++ (cs ++ post) ≡ pre ++ (bs ++ (cs ++ post)) =
        append_assoc pre bs (cs ++ post) in
      let fits : length (pre ++ (bs ++ (cs ++ post))) ≤ limit = rw regroup at h in
      let fits' : length ((pre ++ bs) ++ (cs ++ post)) ≤ limit = rw regroup' fits in
      let between : length pre + length bs ≡ length (pre ++ bs) =
        omega (arith, length-append pre bs) in
      let behind : length (pre ++ bs) + length cs ≡ length pre + length (bs ++ cs) =
        omega (arith, length-append pre bs, length-append bs cs) in
      ap (λ (l : List ℕ). (m >>= f) (record { bytes = l; at = length pre })) regroup
      ∙ ap (λ (r : Result E A × Reader). continue r.0 f r.1) (hm pre (cs ++ post) fits)
      ∙ ap₂ (λ (l : List ℕ) (k : ℕ). f a (record { bytes = l; at = k })) (sym regroup') between
      ∙ hf (pre ++ bs) post fits'
      ∙ ap₂ (λ (l : List ℕ) (k : ℕ). (ok b, record { bytes = l; at = k })) (regroup' ∙ sym regroup)
          behind

  -- A value read by a call that goes on with no more bytes.
  pub Reads-map :
      {A B : Type 0} (m : Read E A) (f : A → B) (bs : List ℕ) (a : A)
      → Reads m bs a
      → Reads (m >>= λ x. pure (f x)) bs (f a)
  Reads-map {A = A} m f bs a h pre post fits =
      ap (λ (r : Result E A × Reader). continue r.0 (λ x. pure (f x)) r.1) (h pre post fits)

  continue_assoc :
      {A B C : Type 0} (r : Result E A) (g : A → Read E B) (f : B → Read E C) (s : Reader)
      → (let (q, u) = continue r g s in continue q f u) ≡ continue r (λ k. g k >>= f) s
  continue_assoc (ok a) g f s = refl
  continue_assoc (err e) g f s = refl

  -- A read, a check, and the rest.
  pub Reads-check :
      {A B C : Type 0} (m : Read E A) (g : A → Read E B) (f : B → Read E C) (bs : List ℕ) (c : C)
      → Reads (m >>= λ k. g k >>= f) bs c
      → Reads ((m >>= g) >>= f) bs c
  Reads-check m g f bs c h pre post fits =
      let (r, s) = m (record { bytes = pre ++ (bs ++ post); at = length pre }) in
      continue_assoc r g f s ∙ h pre post fits

  pub Reads-nested :
      {A B C : Type 0} (m : Read E A) (g : A → Read E B) (f : B → Read E C) (bs : List ℕ) (c : C)
      → Reads ((m >>= g) >>= f) bs c
      → Reads (m >>= λ k. g k >>= f) bs c
  Reads-nested m g f bs c h pre post fits =
      let (r, s) = m (record { bytes = pre ++ (bs ++ post); at = length pre }) in
      sym (continue_assoc r g f s) ∙ h pre post fits
