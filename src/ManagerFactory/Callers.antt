-- ===== src/ManagerFactory/Callers.antt =====
-- The callers of ManagerFor in every order of their moves.
use ack_dms_controller.Base.{
  Bool-cases, String, ap, eq_iff, inl, inr, or_default, refl, some, subst, sym, ℕ, ◌==◌, ◌∙◌, ◌≡◌,
}
use ack_dms_controller.Base.Dict.{lookup}
use ack_dms_controller.Integer.{eq_of_same_number, same_number}
use ack_dms_controller.ManagerFactory.{
  CachedManager, Factory, Move, Pc, Reach, Request, Step, System, answered, begin, calling, later,
  look_up_hit, look_up_miss, make_and_put, make_manager, missed, new_resource_manager, rm_id, step,
}
use ack_dms_controller.ManagerFactory.Keys.{
  IsPlain, lookup-made, lookup-make_manager, new_resource_manager-agree,
}

-- The caller is answered with a manager for its account and region, and its key is in the cache.
abbrev pub IsServed : Factory → Request → Pc → Type 0
IsServed f q calling = Unit
IsServed f q missed = Unit
IsServed f q (answered rm) =
    (rm.manager ≡ new_resource_manager q)
    × (cached : CachedManager) × (lookup (rm_id q) f.rm_cache ≡ some cached)

module _ (requests : ℕ → Request) (plain : (i : ℕ) → IsPlain (requests i))
    (one_controller : (i j : ℕ) → (requests i).partition ≡ (requests j).partition) where
  -- What the cache holds under a key was made for a request with that key.
  abbrev pub IsFilled : Factory → Type 0
  IsFilled f =
      (k : String) (rm : CachedManager)
      → lookup k f.rm_cache ≡ some rm
      → (i : ℕ) × (k ≡ rm_id (requests i)) × (rm.manager ≡ new_resource_manager (requests i))

  -- Every caller that is answered has a manager for its account and region.
  abbrev pub Inv : System → Type 0
  Inv s = IsFilled s.factory × ((i : ℕ) → IsServed s.factory (requests i) (s.pc i))

  same_manager :
      (i j : ℕ)
      → rm_id (requests i) ≡ rm_id (requests j)
      → new_resource_manager (requests i) ≡ new_resource_manager (requests j)
  same_manager i j =
      new_resource_manager-agree (requests i) (requests j) (plain i) (plain j) (one_controller i j)

  make_manager-IsFilled :
      (i : ℕ) (f : Factory) → IsFilled f → IsFilled (make_manager (requests i) f).1
  unfolding make_manager
  make_manager-IsFilled i f h k rm e =
      let q = requests i in
      let found = sym (lookup-make_manager q f k) ∙ e in
      elim (Bool-cases (rm_id q == k)) [
        | inl same ↦ (
          i,
          sym ((eq_iff (rm_id q) k).0 same),
          ap (λ o. (or_default o rm).manager) (sym (rw same at found)),
        )
        | inr differ ↦ h k rm (rw differ at found)
      ]

  make_manager-IsServed :
      (i : ℕ) (f : Factory) (q : Request) (p : Pc)
      → IsServed f q p
      → IsServed (make_manager (requests i) f).1 q p
  make_manager-IsServed i f q calling h = tt
  make_manager-IsServed i f q missed h = tt
  make_manager-IsServed i f q (answered rm) (right, cached, e) =
      elim (Bool-cases (rm_id (requests i) == rm_id q)) [
        | inl same ↦ (
          right,
          (make_manager (requests i) f).0,
          rw (lookup-make_manager (requests i) f (rm_id q), same) refl,
        )
        | inr differ ↦ (right, cached, rw (lookup-make_manager (requests i) f (rm_id q), differ) e)
      ]

  Move-Inv :
      (i : ℕ) (f g : Factory) (p o : Pc)
      → Move (requests i) f p g o
      → IsFilled f
      → IsFilled g
        × IsServed g (requests i) o
        × ((q : Request) (r : Pc) → IsServed f q r → IsServed g q r)
  unfolding make_manager
  Move-Inv i f g calling o (look_up_hit rm e) h =
      let (j, same, right) = h _ rm e in
      (h, (right ∙ sym (same_manager i j same), rm, e), λ q r s. s)
  Move-Inv i f g calling o (look_up_miss e) h = (h, tt, λ q r s. s)
  Move-Inv i f g missed o make_and_put h = (
    make_manager-IsFilled i f h,
    (refl, _, lookup-made (requests i) f),
    make_manager-IsServed i f,
  )
  Move-Inv i f g (answered rm) o m h = elim m [ ]

  Step-Inv : {s t : System} → Step requests s t → Inv s → Inv t
  Step-Inv {s} (step i f p move) (filled, served) =
      let (filled', mine, others) = Move-Inv i s.factory f (s.pc i) p move filled in
      (
        filled',
        λ j. elim (Bool-cases (same_number i j)) [
          | inl e ↦ rw e (subst (λ k. IsServed f (requests k) p) (eq_of_same_number i j e) mine)
          | inr e ↦ rw e (others (requests j) (s.pc j) (served j))
        ],
      )

  -- In every order in which the callers of ManagerFor take the two locks, a caller that has an
  -- answer has a manager for the account and the region of its request, its key is in the cache,
  -- and what the cache holds under a key was made for a request with that key: where no account id
  -- and no name of a region has a slash, and all requests name one partition.
  pub Reach-Inv : {s : System} → Reach requests s → Inv s
  unfolding lookup
  Reach-Inv begin = ((λ k rm e. absurd (cc e)), λ i. tt)
  Reach-Inv (later r st) = Step-Inv st (Reach-Inv r)
