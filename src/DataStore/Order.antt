-- ===== src/DataStore/Order.antt =====
-- Get of the class DataStore (include/gnat/datastore.h) and the order of the map's entries.
use gnat.Base.{
  ◌≡◌, refl, ap, sym, ◌∙◌, List, [], ◌∷◌, Bool, false, Option, none, some, Bool-cases, inl, inr,
  ◌↔◌, if◌then◌else◌,
}
use gnat.Base.Outcome.{Prog}
use gnat.DataStore.{DataStore, DataStoreEntry, lookup, erase, get_entry}
use gnat.DataStore.Entries.{
  IsEquality, Unique, found_entry, erase-Unique, lookup-erase_self, lookup-erase_other, key-differs,
}
use gnat.DataStore.Contents.{found_set, found_entry-injective}
use mathlib.Core.List.{Perm, Permᴰ}
use mathlib.Core.List.Perm
use mathlib.Core.Logic.{∥∥₁_elim}
use mathlib.Core.Path.{subst}

module _ {K H W : Type 0} (same : K → K → Bool) (equality : IsEquality same)
    (call : H → K → DataStoreEntry → Prog W (Bool × H)) where
  abbrev Entries : Type 0
  Entries = List (K × DataStoreEntry)

  erase-absent :
      (key : K) (es : Entries) → lookup same call key es ≡ none → erase same call key es ≡ es
  unfolding lookup erase
  erase-absent key [] h = refl
  erase-absent key ((k, e) ∷ rest) h = elim (Bool-cases (same k key)) [
    | inl found ↦ cc (found, h)
    | inr other ↦
        let below : lookup same call key rest ≡ none = rw other at h in
        rw (other, erase-absent key rest below) refl
  ]

  -- An entry that is found comes first, before the entries of other keys.
  found-Perm :
      (key : K) (e : DataStoreEntry) (es : Entries)
      → Unique same equality call es
      → lookup same call key es ≡ some e
      → Perm ((key, e) ∷ erase same call key es) es
  unfolding lookup erase
  found-Perm key e [] u h = cc
  found-Perm key e ((k, f) ∷ rest) (fresh, u) h = elim (Bool-cases (same k key)) [
    | inl found ↦
        let here : k ≡ key = equality.sound k key found in
        let value : some f ≡ some e = rw found at h in
        let absent : lookup same call key rest ≡ none = rw here at fresh in
        let same_entry : (key, e) ≡ (k, f) = cc (here, value) in
        rw (found, erase-absent key rest absent) (Perm.cons' same_entry (Perm.refl rest))
    | inr other ↦
        let below : lookup same call key rest ≡ some e = rw other at h in
        rw other (
          Perm.trans (Perm.swap (k, f) (key, e) (erase same call key rest))
            (Perm.cons (k, f) (found-Perm key e rest u below)))
  ]

  lookups-Perm :
      (xs ys : Entries)
      → Unique same equality call xs
      → Unique same equality call ys
      → ((k : K) → lookup same call k xs ≡ lookup same call k ys)
      → Perm xs ys
  unfolding lookup
  lookups-Perm [] [] u v h = Perm.nil
  lookups-Perm [] ((k, e) ∷ ys) u v h =
      let one : none ≡ some e = rw (equality.self k) at (h k) in cc
  lookups-Perm ((k, e) ∷ xs) ys (fresh, u) v h =
      let one : some e ≡ lookup same call k ys = rw (equality.self k) at (h k) in
      Perm.trans
        (Perm.cons (k, e)
          (lookups-Perm xs (erase same call k ys) u (erase-Unique same equality call k ys v)
            λ other. elim (Bool-cases (same k other)) [
              | inl found ↦
                  rw (sym (equality.sound k other found))
                    (fresh ∙ sym (lookup-erase_self same equality call k ys))
              | inr differ ↦
                  let below : lookup same call other xs ≡ lookup same call other ys =
                    rw differ at (h other) in
                  below
                  ∙ sym (
                      lookup-erase_other same equality call k other ys
                        (key-differs same equality call k other differ))
            ]))
        (found-Perm k e ys v (sym one))

  swap-fresh :
      (x y : K × DataStoreEntry) (l : Entries)
      → lookup same call x.0 (y ∷ l) ≡ none
      → (same x.0 y.0 ≡ false) × (lookup same call x.0 l ≡ none)
  unfolding lookup
  swap-fresh x y l h = elim (Bool-cases (same y.0 x.0)) [
    | inl equal ↦ cc (equal, h)
    | inr differ ↦ (
      elim (Bool-cases (same x.0 y.0)) [
        | inl equal ↦
            let keys : x.0 ≡ y.0 = equality.sound x.0 y.0 equal in
            absurd (key-differs same equality call y.0 x.0 differ (sym keys))
        | inr apart ↦ apart
      ],
      rw differ at h,
    )
  ]

  lookup-swap :
      (x y : K × DataStoreEntry) (l : Entries) (k : K)
      → same x.0 y.0 ≡ false
      → lookup same call k (x ∷ y ∷ l) ≡ lookup same call k (y ∷ x ∷ l)
  unfolding lookup
  lookup-swap x y l k differ = elim (Bool-cases (same x.0 k)) [
    | inl this ↦ elim (Bool-cases (same y.0 k)) [
      | inl that ↦ absurd (
          key-differs same equality call x.0 y.0 differ
            (equality.sound x.0 k this ∙ sym (equality.sound y.0 k that)))
      | inr that ↦ rw (this, that) refl
    ]
    | inr this ↦ rw this refl
  ]

  -- `ys` has one entry to a key and finds the same as `xs`.
  abbrev SameLookups : Entries → Entries → Type 0
  SameLookups xs ys =
      Unique same equality call ys × ((k : K) → lookup same call k xs ≡ lookup same call k ys)

  Permᴰ-lookup : {xs ys : Entries} → Permᴰ xs ys → Unique same equality call xs → SameLookups xs ys
  unfolding lookup
  Permᴰ-lookup Permᴰ.nil u = (tt, λ k. refl)
  Permᴰ-lookup (Permᴰ.cons {a} {b} {l₁} {l₂} p r) (fresh, u) =
      let (v, e) = Permᴰ-lookup r u in
      subst (λ (x : K × DataStoreEntry). SameLookups (a ∷ l₁) (x ∷ l₂)) p
        (
          (sym (e a.0) ∙ fresh, v),
          λ k. ap (λ (o : Option DataStoreEntry). if same a.0 k then some a.1 else o) (e k),
        )
  Permᴰ-lookup (Permᴰ.swap {a} {b} {a'} {b'} {l} p q) (fresh, (fresh', u)) =
      let (differ, absent) = swap-fresh a b l fresh in
      subst (λ (x : K × DataStoreEntry). SameLookups (a ∷ b ∷ l) (x ∷ b' ∷ l)) q
        (subst (λ (x : K × DataStoreEntry). SameLookups (a ∷ b ∷ l) (b ∷ x ∷ l)) p
          ((rw differ fresh', (absent, u)), λ k. lookup-swap a b l k differ))
  Permᴰ-lookup (Permᴰ.trans r s) u =
      let (v, e) = Permᴰ-lookup r u in let (v', e') = Permᴰ-lookup s v in (v', λ k. e k ∙ e' k)

  -- With a key equality that decides, for two data stores whose maps have at most one entry to a
  -- key: Get gives the same for every key on both, the exception for a missing key included,
  -- exactly when the entries of the one are those of the other in some order.
  pub get_entry-Perm_iff :
      (s t : DataStore K H)
      → Unique same equality call s.entries
      → Unique same equality call t.entries
      → ((k : K) → get_entry same call k s ≡ get_entry same call k t) ↔ Perm s.entries t.entries
  unfolding get_entry
  get_entry-Perm_iff s t u v = (
    (λ h. lookups-Perm s.entries t.entries u v λ k.
        found_entry-injective same equality call (lookup same call k s.entries)
          (lookup same call k t.entries) (h k)),
    (λ p k.
        ap (λ (o : Option DataStoreEntry). found_entry same equality call o)
          (∥∥₁_elim p (found_set _ _) (λ d. (Permᴰ-lookup d u).1 k))),
  )
