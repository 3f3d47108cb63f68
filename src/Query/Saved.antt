-- ===== src/Query/Saved.antt =====
-- The files that the object ids of a result are saved in.
use iql.Base.{suc, ◌≡◌, refl, true, none, some, List, [], ◌∷◌, inl, inr, Bool-cases, Option-cases}
use iql.Text.{Text, text_eq}
use iql.Text.Find.{text_eq_sound, text_eq_refl}
use iql.Fault.{Fault, Result, ok, err}
use iql.Exec.{World, Backend, gets}
use iql.Exec.Triple.{Triple, After, Triple-pure, Triple-bind, Triple-any, Triple-weaken}
use iql.Rasdaman
use iql.Query.Files.{Files, file_of, save_new, save_object, save_objects}

-- Each object id has its file in the list of files.
abbrev pub Named : List (Text × Text) → List Text → List Text → Type 0
Named fs [] [] = Unit
Named fs [] (n ∷ names) = ⊥
Named fs (o ∷ oids) [] = ⊥
Named fs (o ∷ oids) (n ∷ names) = (file_of o fs ≡ some n) × Named fs oids names

-- The files that are there stay as they are.
abbrev pub Extends : List (Text × Text) → List (Text × Text) → Type 0
Extends fs gs = (k n : Text) → file_of k fs ≡ some n → file_of k gs ≡ some n

-- The condition after one object id.
abbrev Saved : List (Text × Text) → Text → Text × Files → World → Type 0
Saved fs oid (name, gs) w = Extends fs gs.names × (file_of oid gs.names ≡ some name)

abbrev Failed : Fault → World → Type 0
Failed e w = Unit

abbrev Any : World → Type 0
Any w = Unit

extended :
    (fs : List (Text × Text)) (oid name : Text)
    → file_of oid fs ≡ none
    → Extends fs ((oid, name) ∷ fs)
unfolding file_of
extended fs oid name h k n e = elim (Bool-cases (text_eq oid k)) [
  | inl same ↦ absurd (clash (text_eq_sound oid k same))
  | inr other ↦ rw other e
]
  where
    clash : oid ≡ k → ⊥
    clash q = cc

found : (fs : List (Text × Text)) (oid name : Text) → file_of oid ((oid, name) ∷ fs) ≡ some name
unfolding file_of
found fs oid name = rw (text_eq_refl oid) refl

save_new-Triple :
    (b : Backend) (coll oid : Text) (fs : Files)
    → file_of oid fs.names ≡ none
    → Triple Any (save_new b coll oid fs) (Saved fs.names oid) Failed
unfolding save_new
save_new-Triple b coll oid fs h =
    Triple-bind {A = Text} (λ _. Any) (gets (λ w. w.encode)) _ (Triple-any (gets (λ w. w.encode)))
      λ e.
        Triple-bind (λ _. Any) (Rasdaman.query_by_oid b _) _
          (Triple-any (Rasdaman.query_by_oid b _))
          λ format.
            Triple-bind (λ _. Any) (Rasdaman.save_mdd b format true (suc fs.index)) _
              (Triple-any (Rasdaman.save_mdd b format true (suc fs.index)))
              λ name.
                Triple-pure (name, record { index = suc fs.index; names = (oid, name) ∷ fs.names })
                  (λ w _. (extended fs.names oid name h, found fs.names oid name))

save_object-Triple :
    (b : Backend) (coll oid : Text) (fs : Files)
    → Triple Any (save_object b coll oid fs) (Saved fs.names oid) Failed
unfolding save_object
save_object-Triple b coll oid fs = elim (Option-cases (file_of oid fs.names)) [
  | inl e ↦ rw (e, save_object) (save_new-Triple b coll oid fs e)
  | inr (name, e) ↦ rw (e, save_object) (Triple-pure _ (λ w _. (λ k n f. f, e)))
]

abbrev AllSaved : List (Text × Text) → List Text → List Text × Files → World → Type 0
AllSaved fs oids (names, gs) w = Extends fs gs.names × Named gs.names oids names

-- The condition after the later object ids.
abbrev Later :
    List (Text × Text) → Text → List Text → Text × Files → List Text × Files → World → Type 0
Later fs oid oids o p w =
    Extends fs p.1.names × (file_of oid p.1.names ≡ some o.0) × Named p.1.names oids p.0

later :
    (b : Backend) (coll : Text) (oids : List Text) (gs : Files) (fs : List (Text × Text))
    (oid name : Text)
    → Triple Any (save_objects b coll oids gs) (AllSaved gs.names oids) Failed
    → Triple
        (Saved fs oid (name, gs))
        (save_objects b coll oids gs)
        (Later fs oid oids (name, gs))
        Failed
later b coll oids gs fs oid name t = record {
  at = λ w h.
      outcome (save_objects b coll oids gs w).0 (save_objects b coll oids gs w).1 h (t.at w tt);
}
  where
    outcome :
        (r : Result (List Text × Files)) (w : World)
        → Extends fs gs.names × (file_of oid gs.names ≡ some name)
        → After (AllSaved gs.names oids) Failed r w
        → After (Later fs oid oids (name, gs)) Failed r w
    outcome (ok p) w (x, f) (y, n) = (λ k m e. y k m (x k m e), y oid name f, n)
    outcome (err e) w h a = tt

save_objects-Triple :
    (b : Backend) (coll : Text) (oids : List Text) (fs : Files)
    → Triple Any (save_objects b coll oids fs) (AllSaved fs.names oids) Failed
unfolding save_objects
save_objects-Triple b coll [] fs = Triple-pure _ (λ w h. (λ k n f. f, tt))
save_objects-Triple b coll (oid ∷ oids) fs =
    Triple-bind (Saved fs.names oid) (save_object b coll oid fs) _
      (save_object-Triple b coll oid fs)
      λ o.
        Triple-bind (Later fs.names oid oids o) (save_objects b coll oids o.1) _
          (later b coll oids o.1 fs.names oid o.0 (save_objects-Triple b coll oids o.1))
          λ p. Triple-pure (o.0 ∷ p.0, p.1) (λ w h. (h.0, (h.1, h.2)))

-- Where all objects of a column are saved, each id has got the file that the list of files then has
-- for it, so that equal ids share one file.
pub save_objects_lem :
    (b : Backend) (coll : Text) (oids : List Text) (fs : Files) (w : World)
    → After
        (λ (o : List Text × Files) _. Named o.1.names oids o.0)
        (λ _ _. Unit)
        (save_objects b coll oids fs w).0
        (save_objects b coll oids fs w).1
save_objects_lem b coll oids fs w =
    (Triple-weaken (save_objects b coll oids fs) (save_objects-Triple b coll oids fs) (λ w h. h)
        (λ o w h. h.1) (λ e w h. h)).at
      w tt
