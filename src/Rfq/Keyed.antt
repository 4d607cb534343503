-- ===== src/Rfq/Keyed.antt =====
-- Rust's `HashMap` under byte-string keys, as the entries without an order that matters: an
-- insertion replaces what stood under the key.
use rust_tap.Common.{ℕ, ◌≡◌, refl, sym, ap, arith, Bool, true, false, Option, none, some}
use rust_tap.Common.{
  List, [], ◌∷◌, if◌then◌else◌, bytes_eq, bytes_eq→eq, bytes_eq_refl, Bool-cases, inl, inr, subst,
}

abbrev pub Key : Type 0
Key = List ℕ

abbrev pub is_some {ℓ} : {A : Type ℓ} → Option A → Bool
is_some none = false
is_some (some a) = true

abbrev pub Keyed {ℓ} : Type ℓ → Type ℓ
Keyed V = List (Key × V)

module _ {ℓ} {V : Type ℓ} where
  unfoldable pub get : Key → Keyed V → Option V
  get k [] = none
  get k ((j, v) ∷ rest) = let later = get k rest in if bytes_eq j k then some v else later

  unfoldable pub has_key : Key → Keyed V → Bool
  unfolding get
  has_key k m = is_some (get k m)

  unfoldable pub remove_key : Key → Keyed V → Keyed V
  remove_key k [] = []
  remove_key k ((j, v) ∷ rest) =
      let later = remove_key k rest in if bytes_eq j k then later else (j, v) ∷ later

  unfoldable pub insert_key : Key → V → Keyed V → Keyed V
  unfolding remove_key
  insert_key k v m = (k, v) ∷ remove_key k m

  unfoldable pub retain : (Key → V → Bool) → Keyed V → Keyed V
  retain keep [] = []
  retain keep ((j, v) ∷ rest) =
      let later = retain keep rest in if keep j v then (j, v) ∷ later else later

  -- No key stands twice.
  abbrev pub IsKeyed : Keyed V → Type ℓ
  IsKeyed [] = Unit {ℓ}
  IsKeyed ((j, v) ∷ rest) = (get j rest ≡ none) × IsKeyed rest

  pub get-remove_key : (k : Key) (m : Keyed V) → get k (remove_key k m) ≡ none
  unfolding get remove_key
  get-remove_key k [] = refl
  get-remove_key k ((j, v) ∷ rest) = ground (arith, get-remove_key k rest)

  pub get-remove_key_other :
      (j k : Key) (m : Keyed V) → bytes_eq j k ≡ false → get k (remove_key j m) ≡ get k m
  unfolding get remove_key
  get-remove_key_other j k [] other = refl
  get-remove_key_other j k ((i, v) ∷ rest) other = elim (Bool-cases (bytes_eq i j)) [
    | inl gone ↦
        let miss : bytes_eq i k ≡ false =
          subst (λ t. bytes_eq t k ≡ false) (sym (bytes_eq→eq i j gone)) other in
        rw (gone, miss) (get-remove_key_other j k rest other)
    | inr kept ↦ rw (kept, get-remove_key_other j k rest other) refl
  ]

  pub get-insert_key : (k : Key) (v : V) (m : Keyed V) → get k (insert_key k v m) ≡ some v
  unfolding get insert_key
  get-insert_key k v m = rw (bytes_eq_refl k) refl

  pub get-insert_key_other :
      (j k : Key) (v : V) (m : Keyed V) → bytes_eq j k ≡ false → get k (insert_key j v m) ≡ get k m
  unfolding get insert_key
  get-insert_key_other j k v m other = rw other (get-remove_key_other j k m other)

  pub get-none-remove_key :
      (j k : Key) (m : Keyed V) → get k m ≡ none → get k (remove_key j m) ≡ none
  unfolding get remove_key
  get-none-remove_key j k [] h = refl
  get-none-remove_key j k ((i, v) ∷ rest) h = ground (arith, get-none-remove_key j k rest)

  pub get-none-retain :
      (keep : Key → V → Bool) (k : Key) (m : Keyed V)
      → get k m ≡ none
      → get k (retain keep m) ≡ none
  unfolding get retain
  get-none-retain keep k [] h = refl
  get-none-retain keep k ((i, v) ∷ rest) h = ground (arith, get-none-retain keep k rest)

  pub remove_key-IsKeyed : (k : Key) (m : Keyed V) → IsKeyed m → IsKeyed (remove_key k m)
  unfolding remove_key
  remove_key-IsKeyed k [] h = tt
  remove_key-IsKeyed k ((j, v) ∷ rest) (h, hs) = elim (Bool-cases (bytes_eq j k)) [
    | inl gone ↦ rw gone (remove_key-IsKeyed k rest hs)
    | inr kept ↦ rw kept (get-none-remove_key k j rest h, remove_key-IsKeyed k rest hs)
  ]

  pub insert_key-IsKeyed : (k : Key) (v : V) (m : Keyed V) → IsKeyed m → IsKeyed (insert_key k v m)
  unfolding insert_key
  insert_key-IsKeyed k v m h = (get-remove_key k m, remove_key-IsKeyed k m h)

  pub retain-IsKeyed : (keep : Key → V → Bool) (m : Keyed V) → IsKeyed m → IsKeyed (retain keep m)
  unfolding retain
  retain-IsKeyed keep [] h = tt
  retain-IsKeyed keep ((j, v) ∷ rest) (h, hs) = elim (Bool-cases (keep j v)) [
    | inl kept ↦ rw kept (get-none-retain keep j rest h, retain-IsKeyed keep rest hs)
    | inr gone ↦ rw gone (retain-IsKeyed keep rest hs)
  ]

  abbrev pub kept_of : (Key → V → Bool) → Key → Option V → Option V
  kept_of keep k none = none
  kept_of keep k (some v) = if keep k v then some v else none

  get-retain_here :
      (keep : Key → V → Bool) (j : Key) (v : V) (rest : Keyed V)
      → get j rest ≡ none
      → get j (retain keep ((j, v) ∷ rest)) ≡ kept_of keep j (get j ((j, v) ∷ rest))
  unfolding get retain
  get-retain_here keep j v rest h = elim (Bool-cases (keep j v)) [
    | inl kept ↦ rw (kept, bytes_eq_refl j, kept) refl
    | inr gone ↦ rw (gone, bytes_eq_refl j, gone) (get-none-retain keep j rest h)
  ]

  -- Where no key stands twice, `retain` keeps exactly the entries that pass the test.
  pub get-retain :
      (keep : Key → V → Bool) (k : Key) (m : Keyed V)
      → IsKeyed m
      → get k (retain keep m) ≡ kept_of keep k (get k m)
  unfolding get retain
  get-retain keep k [] h = refl
  get-retain keep k ((j, v) ∷ rest) (h, hs) = elim (Bool-cases (bytes_eq j k)) [
    | inl hit ↦
        subst (λ t. get t (retain keep ((j, v) ∷ rest)) ≡ kept_of keep t (get t ((j, v) ∷ rest)))
          (bytes_eq→eq j k hit) (get-retain_here keep j v rest h)
    | inr miss ↦
        let later = get-retain keep k rest hs in
        elim (Bool-cases (keep j v)) [
          | inl kept ↦ rw (kept, miss) later
          | inr gone ↦ rw (gone, miss) later
        ]
  ]

  -- A test of the key alone keeps or drops all that stands under it.
  pub get-retain_keys :
      (keep : Key → Bool) (k : Key) (m : Keyed V)
      → get k (retain (λ j v. keep j) m) ≡ (if keep k then get k m else none)
  unfolding get retain
  get-retain_keys keep k [] = ground arith
  get-retain_keys keep k ((j, v) ∷ rest) =
      let later = get-retain_keys keep k rest in
      elim (Bool-cases (bytes_eq j k)) [
        | inl hit ↦
            let same : keep j ≡ keep k = ap keep (bytes_eq→eq j k hit) in
            rw same (elim (Bool-cases (keep k)) [
              | inl kept ↦ rw (kept, hit) refl
              | inr gone ↦ rw (gone, later, gone) refl
            ])
        | inr miss ↦ elim (Bool-cases (keep j)) [
          | inl kept ↦ rw (kept, miss) later
          | inr gone ↦ rw (gone, miss) later
        ]
      ]
