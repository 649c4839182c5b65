-- ===== src/Drives/Reach.antt =====
-- The part of the tree of drives that `recursiveFindDrives` collects.
use dmp.Base.{
  some-injective, ℕ, zero, suc, ◌≡◌, refl, sym, ◌∙◌, subst, String, true, ◌||◌, Option, none, some,
  List, [], ◌∷◌, ◌++◌, eq_refl, ◌⊎◌, inl, inr, arith, All, Any, includes, truthy, Option-cases,
}
use dmp.Model.Types.{Drive, DriveType, folder, file}
use dmp.Model.Collection.{find_one}
use dmp.Model.Collection.Pairwise.{All-map}
use dmp.Drives.{Found, live_drive, walk, listed, collect, join, recursive_find_drives}

-- From a node one reaches itself and, if it is a folder, what its live children reach.
pub data Reaches (drives : List Drive) : Drive → Drive → Type 0 where
  here : {d : Drive} → Reaches drives d d
  below :
      {d e f : Drive}
      → d.drive_type ≡ folder
      → (c : String) → Any (λ x. x ≡ c) d.children
      → find_one (live_drive c) drives ≡ some e
      → Reaches drives e f
      → Reaches drives d f

-- The file of a file node.
abbrev pub Holds : Drive → String → Type 0
Holds d i = (d.drive_type ≡ file) × (truthy d.file_id ≡ some i)

-- The ids and the files collected are those of the nodes with a property.
pub record Collects (P : Drive → Type 0) (a : Found) : Type 0 where
  pub sound : All (λ i. (e : Drive) × P e × (e.id ≡ i)) a.drive_ids
  pub complete : (e : Drive) → P e → includes a.drive_ids e.id ≡ true
  pub files_sound : All (λ i. (e : Drive) × P e × Holds e i) a.file_ids
  pub files_complete : (e : Drive) (i : String) → P e → Holds e i → includes a.file_ids i ≡ true

All-append : (P : String → Type 0) (xs ys : List String) → All P xs → All P ys → All P (xs ++ ys)
All-append P [] ys a b = b
All-append P (x ∷ xs) ys a b = (a.0, All-append P xs ys a.1 b)

includes-append :
    (xs ys : List String) (s : String) → includes (xs ++ ys) s ≡ (includes xs s || includes ys s)
includes-append [] ys s = refl
includes-append (x ∷ xs) ys s = ground (arith, includes-append xs ys s)

Collects-join :
    {P Q S : Drive → Type 0} (a b : Found)
    → ((e : Drive) → P e → S e)
    → ((e : Drive) → Q e → S e)
    → ((e : Drive) → S e → P e ⊎ Q e)
    → Collects P a
    → Collects Q b
    → Collects S (join a b)
Collects-join {P} {Q} {S} a b left right split p q = record {
  sound =
      All-append _ a.drive_ids b.drive_ids
        (All-map _ _ (λ i (e, h, same). (e, left e h, same)) a.drive_ids p.sound)
        (All-map _ _ (λ i (e, h, same). (e, right e h, same)) b.drive_ids q.sound);
  complete = λ e h. elim (split e h) [
    | inl h' ↦ rw (includes-append a.drive_ids b.drive_ids e.id, p.complete e h') refl
    | inr h' ↦
        let there : includes b.drive_ids e.id ≡ true = q.complete e h' in
        rw (includes-append a.drive_ids b.drive_ids e.id) (ground arith)
  ];
  files_sound =
      All-append _ a.file_ids b.file_ids
        (All-map _ _ (λ i (e, h, held). (e, left e h, held)) a.file_ids p.files_sound)
        (All-map _ _ (λ i (e, h, held). (e, right e h, held)) b.file_ids q.files_sound);
  files_complete = λ e i h held. elim (split e h) [
    | inl h' ↦ rw (includes-append a.file_ids b.file_ids i, p.files_complete e i h' held) refl
    | inr h' ↦
        let there : includes b.file_ids i ≡ true = q.files_complete e i h' held in
        rw (includes-append a.file_ids b.file_ids i) (ground arith)
  ];
}

-- What one reaches from the live ones among some ids.
abbrev Under : List Drive → List String → Drive → Type 0
Under drives cs f =
    (c : String) × (e : Drive) × Any (λ x. x ≡ c) cs
    × (find_one (live_drive c) drives ≡ some e)
    × Reaches drives e f

Collects-same :
    {P Q : Drive → Type 0} {a : Found}
    → ((e : Drive) → P e → Q e)
    → ((e : Drive) → Q e → P e)
    → Collects P a
    → Collects Q a
Collects-same {a = a} to from p = record {
  sound = All-map _ _ (λ i (e, h, same). (e, to e h, same)) a.drive_ids p.sound;
  complete = λ e h. p.complete e (from e h);
  files_sound = All-map _ _ (λ i (e, h, held). (e, to e h, held)) a.file_ids p.files_sound;
  files_complete = λ e i h. p.files_complete e i (from e h);
}

module _ {drives : List Drive} where
  gone-Under :
      (c : String) (cs : List String)
      → find_one (live_drive c) drives ≡ none
      → (f : Drive) → Under drives (c ∷ cs) f
      → Under drives cs f
  gone-Under c cs gone f (c', e, inl same, found, r) =
      let known : find_one (live_drive c) drives ≡ some e =
        subst (λ x. find_one (live_drive x) drives ≡ some e) (sym same) found in
      cc
  gone-Under c cs gone f (c', e, inr there, found, r) = (c', e, there, found, r)

  found-Under :
      (c : String) (cs : List String) (d : Drive)
      → find_one (live_drive c) drives ≡ some d
      → (f : Drive) → Under drives (c ∷ cs) f
      → Reaches drives d f ⊎ Under drives cs f
  found-Under c cs d found f (c', e, inl same, found', r) =
      let known : find_one (live_drive c) drives ≡ some e =
        subst (λ x. find_one (live_drive x) drives ≡ some e) (sym same) found' in
      inl (subst (λ x. Reaches drives x f) (some-injective (sym known ∙ found)) r)
  found-Under c cs d found f (c', e, inr there, found', r) = inr (c', e, there, found', r)

type-cases : (t : DriveType) → (t ≡ file) ⊎ (t ≡ folder)
type-cases file = inl refl
type-cases folder = inr refl

module _ (drives : List Drive) (visit : Drive → Option Found)
    (good : (d : Drive) (a : Found) → visit d ≡ some a → Collects (Reaches drives d) a) where
  joined :
      (d : Drive) (o rest : Option Found) {a : Found}
      → elim o [ none ↦ none | some x ↦ elim rest [ none ↦ none | some y ↦ some (join x y) ] ]
        ≡ some a
      → (x y : Found) × (o ≡ some x) × (rest ≡ some y) × (join x y ≡ a)
  joined d none rest h = cc
  joined d (some x) none h = cc
  joined d (some x) (some y) h = (x, y, refl, refl, some-injective h)

  walk-Collects :
      (cs : List String) {a : Found} → walk drives visit cs ≡ some a → Collects (Under drives cs) a
  walk-Collects [] {a} h = subst (Collects (Under drives [])) (some-injective h) (record {
    sound = tt;
    complete = λ f (c, e, there, _, _). absurd there;
    files_sound = tt;
    files_complete = λ f i (c, e, there, _, _). absurd there;
  })
  walk-Collects (c ∷ cs) {a} h = elim (Option-cases (find_one (live_drive c) drives)) [
    | inl gone ↦
        Collects-same (λ f (c', e, there, found, r). (c', e, inr there, found, r))
          (λ f u. gone-Under c cs gone f u) (walk-Collects cs (rw (gone, walk) at h))
    | inr (d, found) ↦
        let (x, y, visited, walked, same) =
          joined d (visit d) (walk drives visit cs) {a = a} (rw (found, walk) at h) in
        subst (Collects (Under drives (c ∷ cs))) same (
          Collects-join x y (λ f r. (c, d, inl refl, found, r))
            (λ f (c', e, there, found', r). (c', e, inr there, found', r))
            (found-Under c cs d found) (good d x visited) (walk-Collects cs walked))
  ]

module _ (drives : List Drive) (root : Drive) where
  reach_file : {e : Drive} → root.drive_type ≡ file → Reaches drives root e → root ≡ e
  reach_file is_file here = refl
  reach_file is_file (below is_folder c there found r) =
      let clash : file ≡ folder = sym is_file ∙ is_folder in cc

  own_file-held :
      root.drive_type ≡ file
      → (o : Option String) → truthy root.file_id ≡ o
      → All (λ i. (e : Drive) × Reaches drives root e × Holds e i) (listed o)
  own_file-held is_file none held = tt
  own_file-held is_file (some f) held = ((root, here, (is_file, held)), tt)

  own_file_complete :
      (i : String) (o : Option String)
      → truthy root.file_id ≡ o
      → Holds root i
      → includes (listed o) i ≡ true
  own_file_complete i none known (is_file, held) =
      let clash : none ≡ some i = sym known ∙ held in cc
  own_file_complete i (some f) known (is_file, held) =
      let same : f ≡ i = some-injective (sym known ∙ held) in rw (same, eq_refl i) refl

  under :
      {e : Drive} → root.drive_type ≡ folder → Under drives root.children e → Reaches drives root e
  under is_folder (c, d, there, found, r) = below is_folder c there found r

  split : {e : Drive} → Reaches drives root e → (root ≡ e) ⊎ Under drives root.children e
  split here = inl refl
  split (below is_folder c there found r) = inr (c, _, there, found, r)

  collect-Collects :
      (t : DriveType)
      → root.drive_type ≡ t
      → (found : Option Found)
      → ((x : Found) → found ≡ some x → Collects (Under drives root.children) x)
      → (a : Found) → collect t root found ≡ some a
      → Collects (Reaches drives root) a
  collect-Collects file same found good a h =
      subst (Collects (Reaches drives root)) (some-injective h) (record {
        sound = ((root, here, refl), tt);
        complete = λ e r. rw (← reach_file same r) (ground (arith, eq_refl root.id));
        files_sound = own_file-held same _ refl;
        files_complete = λ e i r held.
            own_file_complete i _ refl (subst (λ n. Holds n i) (sym (reach_file same r)) held);
      })
  collect-Collects folder same none good a h = cc
  collect-Collects folder same (some x) good a h =
      let u = good x refl in
      subst (Collects (Reaches drives root)) (some-injective h) (record {
        sound = (
          (root, here, refl),
          All-map _ _ (λ i (e, v, named). (e, under same v, named)) x.drive_ids u.sound,
        );
        complete = λ e r. elim (split r) [
          | inl e' ↦ rw (← e') (ground (arith, eq_refl root.id))
          | inr v ↦ let there : includes x.drive_ids e.id ≡ true = u.complete e v in ground arith
        ];
        files_sound =
            All-map _ _ (λ i (e, v, held). (e, under same v, held)) x.file_ids u.files_sound;
        files_complete = λ e i r held. elim (split r) [
          | inl e' ↦
              let clash : folder ≡ file = sym same ∙ (subst (λ n. Holds n i) (sym e') held).0 in cc
          | inr v ↦ u.files_complete e i v held
        ];
      })

-- Where the depth is enough, the search collects the ids of the nodes one reaches from the root, and
-- the files of those that are file nodes, and nothing else.
pub recursive_find_drives-Collects :
    (n : ℕ) (drives : List Drive) (root : Drive) (a : Found)
    → recursive_find_drives n drives root ≡ some a
    → Collects (Reaches drives root) a
unfolding recursive_find_drives
recursive_find_drives-Collects zero drives root a h = cc
recursive_find_drives-Collects (suc n) drives root a h =
    collect-Collects drives root root.drive_type refl _
      (λ x e.
        walk-Collects drives (λ d. recursive_find_drives n drives d)
          (λ d y e'. recursive_find_drives-Collects n drives d y e') root.children e)
      a h
