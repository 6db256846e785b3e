-- ===== src/Store/Numbers.antt =====
-- db/repo.py, _Repo: what a lookup finds after an update or an insert of a numbered row.
use wheelbot.Common.{
  Bool, Bool-cases, List, Option, [], ap, arith, inl, inr, length, map, none, refl, some, suc, sym,
  true, zero, ℕ, ◌++◌, ◌∙◌, ◌∷◌, ◌≡◌,
}
use wheelbot.Store.Rows.{find_row, further, update_row, row}

module _ {ℓ} {A : Type ℓ} where
  abbrev pub via {κ} : {B : Type κ} → (A → B) → Option (ℕ × A) → Option (ℕ × B)
  via f none = none
  via f (some (n, x)) = some (n, f x)

  further-via {κ} :
      {B : Type κ} (f : A → B) (o : Option (ℕ × A)) → further (via f o) ≡ via f (further o)
  further-via f none = refl
  further-via f (some (n, x)) = refl

  pub find_row-map {κ} :
      {B : Type κ} (f : A → B) (p : A → Bool) (q : B → Bool) (xs : List A)
      → ((x : A) → q (f x) ≡ p x)
      → find_row q (map f xs) ≡ via f (find_row p xs)
  unfolding find_row
  find_row-map f p q [] h = refl
  find_row-map f p q (x ∷ xs) h =
      let rest = ap further (find_row-map f p q xs h) ∙ further-via f (find_row p xs) in
      elim (Bool-cases (p x)) [ inl e ↦ rw (h x, e) refl | inr e ↦ rw (h x, e) rest ]

  -- A row found further on.
  further-some :
      (o : Option (ℕ × A)) (n : ℕ) (x : A)
      → further o ≡ some (n, x)
      → (m : ℕ) × (n ≡ suc m) × (o ≡ some (m, x))
  further-some none n x e = ground arith
  further-some (some (m, y)) n x e = (m, ground arith, ground arith)

  further-none : (o : Option (ℕ × A)) → further o ≡ none → o ≡ none
  further-none none e = refl
  further-none (some (m, y)) e = ground arith

  pub find_row-update :
      (p : A → Bool) (f : A → A) (n : ℕ) (x : A) (xs : List A)
      → find_row p xs ≡ some (n, x)
      → p (f x) ≡ true
      → find_row p (update_row n f xs) ≡ some (n, f x)
  unfolding find_row update_row
  find_row-update p f n x [] e h = ground arith
  find_row-update p f n x (y ∷ xs) e h = elim (Bool-cases (p y)) [
    | inl hit ↦ ground arith
    | inr miss ↦
        let (m, next, found) = further-some (find_row p xs) n x (sym (rw miss refl) ∙ e) in
        rw (next, miss, find_row-update p f m x xs found h) refl
  ]

  pub find_row-update_none :
      (p : A → Bool) (f : A → A) (n : ℕ) (xs : List A)
      → ((x : A) → p (f x) ≡ p x)
      → find_row p xs ≡ none
      → find_row p (update_row n f xs) ≡ none
  unfolding find_row update_row
  find_row-update_none p f n [] k e = refl
  find_row-update_none p f zero (y ∷ xs) k e = elim (Bool-cases (p y)) [
    | inl hit ↦ ground arith
    | inr miss ↦ rw (k y, miss) (sym (rw miss refl) ∙ e)
  ]
  find_row-update_none p f (suc n) (y ∷ xs) k e = elim (Bool-cases (p y)) [
    | inl hit ↦ ground arith
    | inr miss ↦
        rw
          (
            miss,
            find_row-update_none p f n xs k (further-none (find_row p xs) (sym (rw miss refl) ∙ e)),
          )
          refl
  ]

  pub find_row-holds :
      (p : A → Bool) (n : ℕ) (x : A) (xs : List A) → find_row p xs ≡ some (n, x) → p x ≡ true
  unfolding find_row
  find_row-holds p n x [] e = ground arith
  find_row-holds p n x (y ∷ xs) e = elim (Bool-cases (p y)) [
    | inl hit ↦ ground arith
    | inr miss ↦
        let (m, next, found) = further-some (find_row p xs) n x (sym (rw miss refl) ∙ e) in
        find_row-holds p m x xs found
  ]

  -- An update that changes nothing of the row that is found.
  pub update_row_self :
      (p : A → Bool) (f : A → A) (n : ℕ) (x : A) (xs : List A)
      → find_row p xs ≡ some (n, x)
      → f x ≡ x
      → update_row n f xs ≡ xs
  unfolding find_row update_row
  update_row_self p f n x [] e h = refl
  update_row_self p f n x (y ∷ xs) e h = elim (Bool-cases (p y)) [
    | inl hit ↦ ground arith
    | inr miss ↦
        let (m, next, found) = further-some (find_row p xs) n x (sym (rw miss refl) ∙ e) in
        rw next (ap (λ ys. y ∷ ys) (update_row_self p f m x xs found h))
  ]

  pub find_row-append :
      (p : A → Bool) (x : A) (xs : List A)
      → find_row p xs ≡ none
      → p x ≡ true
      → find_row p (xs ++ x ∷ []) ≡ some (length xs, x)
  unfolding find_row
  find_row-append p x [] e h = rw h refl
  find_row-append p x (y ∷ xs) e h = elim (Bool-cases (p y)) [
    | inl hit ↦ ground arith
    | inr miss ↦
        rw (miss, find_row-append p x xs (further-none (find_row p xs) (sym (rw miss refl) ∙ e)) h)
          refl
  ]

  pub row-update_row :
      (n : ℕ) (f : A → A) (x : A) (xs : List A)
      → row n xs ≡ some x
      → row n (update_row n f xs) ≡ some (f x)
  unfolding row update_row
  row-update_row n f x [] e = ground arith
  row-update_row zero f x (y ∷ ys) e = ground arith
  row-update_row (suc n) f x (y ∷ ys) e = row-update_row n f x ys e
