-- ===== src/Iblt/Updates.antt =====
-- Changes of single elements of a list, as the loops over the buckets of a key make them.
use defiads.Prelude.{ℕ, zero, suc, ◌≡◌, refl, List, [], ◌∷◌, length, ap, ◌∙◌, All}
use defiads.Iblt.{update, update_all}

module _ {ℓ} {A : Type ℓ} where
  pub length-update : (f : A → A) (i : ℕ) (bs : List A) → length (update f i bs) ≡ length bs
  unfolding update
  length-update f i [] = refl
  length-update f zero (b ∷ bs) = refl
  length-update f (suc i) (b ∷ bs) = ap suc (length-update f i bs)

  pub length-update_all :
      (f : A → A) (ns : List ℕ) (bs : List A) → length (update_all f ns bs) ≡ length bs
  unfolding update_all
  length-update_all f [] bs = refl
  length-update_all f (n ∷ ns) bs = length-update_all f ns (update f n bs) ∙ length-update f n bs

  pub update_All {κ} :
      (P : A → Type κ) (f : A → A) (i : ℕ) (bs : List A)
      → ((b : A) → P b → P (f b))
      → All P bs
      → All P (update f i bs)
  unfolding update
  update_All P f i [] keep h = tt
  update_All P f zero (b ∷ bs) keep h = (keep b h.0, h.1)
  update_All P f (suc i) (b ∷ bs) keep h = (h.0, update_All P f i bs keep h.1)

  pub update_all_All {κ} :
      (P : A → Type κ) (f : A → A) (ns : List ℕ) (bs : List A)
      → ((b : A) → P b → P (f b))
      → All P bs
      → All P (update_all f ns bs)
  unfolding update_all
  update_all_All P f [] bs keep h = h
  update_all_All P f (n ∷ ns) bs keep h =
      update_all_All P f ns (update f n bs) keep (update_All P f n bs keep h)

  module _ (f g : A → A) (comm : (b : A) → f (g b) ≡ g (f b)) where
    update_comm : (i j : ℕ) (bs : List A) → update f i (update g j bs) ≡ update g j (update f i bs)
    unfolding update
    update_comm i j [] = refl
    update_comm zero zero (b ∷ bs) = ap (λ c. c ∷ bs) (comm b)
    update_comm zero (suc j) (b ∷ bs) = refl
    update_comm (suc i) zero (b ∷ bs) = refl
    update_comm (suc i) (suc j) (b ∷ bs) = ap (◌∷◌ b) (update_comm i j bs)

    pub update-update_all :
        (i : ℕ) (ns : List ℕ) (bs : List A)
        → update f i (update_all g ns bs) ≡ update_all g ns (update f i bs)
    unfolding update_all
    update-update_all i [] bs = refl
    update-update_all i (n ∷ ns) bs =
        update-update_all i ns (update g n bs) ∙ ap (update_all g ns) (update_comm i n bs)

    pub update_all_comm :
        (ms ns : List ℕ) (bs : List A)
        → update_all f ms (update_all g ns bs) ≡ update_all g ns (update_all f ms bs)
    unfolding update_all
    update_all_comm [] ns bs = refl
    update_all_comm (m ∷ ms) ns bs =
        ap (update_all f ms) (update-update_all m ns bs) ∙ update_all_comm ms ns (update f m bs)

    -- One change takes back the other.
    module _ {κ} (P : A → Type κ) (back : (b : A) → P b → f (g b) ≡ b) where
      update_back : (i : ℕ) (bs : List A) → All P bs → update f i (update g i bs) ≡ bs
      unfolding update
      update_back i [] h = refl
      update_back zero (b ∷ bs) h = ap (λ c. c ∷ bs) (back b h.0)
      update_back (suc i) (b ∷ bs) h = ap (◌∷◌ b) (update_back i bs h.1)

      pub update_all_back :
          (ns : List ℕ) (bs : List A) → All P bs → update_all f ns (update_all g ns bs) ≡ bs
      unfolding update_all
      update_all_back [] bs h = refl
      update_all_back (n ∷ ns) bs h =
          ap (update_all f ns)
            (update-update_all n ns (update g n bs) ∙ ap (update_all g ns) (update_back n bs h))
          ∙ update_all_back ns bs h
