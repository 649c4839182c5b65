-- ===== src/Drives/Deleted.antt =====
-- What deleting a drive deletes, and that the search for it ends.
use dmp.Base.{
  ℕ, zero, suc, ◌<◌, ◌≡◌, ◌≢◌, refl, ap, sym, ◌∙◌, subst, String, true, false, Option, none, some,
  List, [], ◌∷◌, ◌==◌, eq_iff, ◌⊎◌, inl, inr, arith, All, includes, Option-cases, Bool-cases,
}
use dmp.Model.Types.{User, Drive, File, DriveType, folder, file}
use dmp.Model.World.{World}
use dmp.Model.Action.{Result, ok, err}
use dmp.Model.Action.Post.{
  or_throw-post, throw_if-post, gets-post, date_now-post, modify-post, modify_end-post, pure-post,
  >>=-via,
}
use dmp.Model.Collection.{find_one, find_one-All, find_one-holds, update_many, is_live, bury}
use dmp.Model.Collection.Many.{Alongside, update_many-Alongside}
use dmp.Drives.{
  Found, live_drive, walk, join, collect, recursive_find_drives, delete_found, delete_drive,
}
use dmp.Drives.Reach.{Reaches, Holds, Collects, recursive_find_drives-Collects}

-- The children of a node rank below it.
abbrev pub IsRanked : (String → ℕ) → Drive → Type 0
IsRanked rank d = All (λ c. rank c < rank d.id) d.children

walk_found :
    (drives : List Drive) (visit : Drive → Option Found) (c : String) (cs : List String) (d : Drive)
    (a b : Found)
    → find_one (live_drive c) drives ≡ some d
    → visit d ≡ some a
    → walk drives visit cs ≡ some b
    → walk drives visit (c ∷ cs) ≡ some (join a b)
walk_found drives visit c cs d a b found visited rest = rw (walk, found, visited, rest) refl

module _ (rank : String → ℕ) (drives : List Drive) (ranked : All (IsRanked rank) drives) where
  walk_total :
      (visit : Drive → Option Found) (m : ℕ)
      → ((d : Drive) → rank d.id < m → IsRanked rank d → (a : Found) × (visit d ≡ some a))
      → (cs : List String) → All (λ c. rank c < m) cs
      → (a : Found) × (walk drives visit cs ≡ some a)
  walk_total visit m total [] le = (_, refl)
  walk_total visit m total (c ∷ cs) le =
      let (b, rest) = walk_total visit m total cs le.1 in
      elim (Option-cases (find_one (live_drive c) drives)) [
        | inl gone ↦ (b, rw (gone, walk) rest)
        | inr (d, found) ↦
            let named : d.id ≡ c =
              ground (arith, find_one-holds (live_drive c) drives found, eq_iff d.id c) in
            let (a, visited) =
              total d (rw named le.0)
                (find_one-All (IsRanked rank) (live_drive c) drives ranked found) in
            (join a b, walk_found drives visit c cs d a b found visited rest)
      ]

  collect_total :
      (t : DriveType) (root : Drive) (o : Option Found)
      → (a : Found) × (o ≡ some a)
      → (a : Found) × (collect t root o ≡ some a)
  collect_total t root none (a, e) = cc
  collect_total file root (some x) h = (_, refl)
  collect_total folder root (some x) h = (_, refl)

  -- A depth above the rank of the root is enough.
  recursive_find_drives_total :
      (n : ℕ) (root : Drive)
      → rank root.id < n
      → IsRanked rank root
      → (a : Found) × (recursive_find_drives n drives root ≡ some a)
  unfolding recursive_find_drives
  recursive_find_drives_total zero root le own = absurd (omega arith)
  recursive_find_drives_total (suc n) root le own = collect_total root.drive_type root _ (
      walk_total (λ d. recursive_find_drives n drives d) (rank root.id)
        (λ d le' own'. recursive_find_drives_total n d (omega arith) own') root.children own)

-- A node before and after: it is deleted, and otherwise as before, where the search from the root reaches
-- a node with its id; else it is as before.
abbrev pub NodeAfter : World → Drive → Drive → Drive → Type 0
NodeAfter w root d d' =
    (((e : Drive) × Reaches w.drives root e × (e.id ≡ d.id))
      × (is_live d'.life ≡ false)
      × (d' ≡ record d { life = d'.life }))
    ⊎ (((e : Drive) → Reaches w.drives root e → e.id ≢ d.id) × (d' ≡ d))

-- A file before and after, in the same way, where a node that is reached holds it.
abbrev pub FileAfter : World → Drive → File → File → Type 0
FileAfter w root f f' =
    (((e : Drive) × Reaches w.drives root e × Holds e f.id)
      × (is_live f'.life ≡ false)
      × (f' ≡ record f { life = f'.life }))
    ⊎ (((e : Drive) → Reaches w.drives root e → ¬ Holds e f.id) × (f' ≡ f))

abbrev pub Deleted : String → World → Result (Option Drive) × World → Type 0
Deleted i w (ok none, w') = ⊥
Deleted i w (err e t, w') = w' ≡ w
Deleted i w (ok (some root), w') =
    (find_one (live_drive i) w.drives ≡ some root)
    × Alongside (NodeAfter w root) w.drives w'.drives
    × Alongside (FileAfter w root) w.files w'.files

from_includes :
    (P : String → Type 0) (xs : List String) (i : String) → includes xs i ≡ true → All P xs → P i
from_includes P [] i h a = cc
from_includes P (x ∷ xs) i h a = elim (Bool-cases (x == i)) [
  | inl e ↦ subst P ((eq_iff x i).0 e) a.0
  | inr e ↦ from_includes P xs i (ground arith) a.1
]

module _ (i : String) (w : World) (root : Drive)
    (found : find_one (live_drive i) w.drives ≡ some root) (a : Found)
    (all : Collects (Reaches w.drives root) a) where
  buried :
      (t t' : ℕ) (u : String) (w' : World)
      → w'.drives
        ≡ update_many
            (λ d. includes a.drive_ids d.id)
            (λ d. record d { life = bury t u d.life })
            w.drives
      → w'.files
        ≡ update_many
            (λ f. includes a.file_ids f.id)
            (λ f. record f { life = bury t' u f.life })
            w.files
      → Deleted i w (ok (some root), w')
  buried t t' u w' drives_now files_now = (
    found,
    rw drives_now (
        update_many-Alongside _ _ (NodeAfter w root) w.drives
          (λ d hit. inl (
            from_includes (λ j. (e : Drive) × Reaches w.drives root e × (e.id ≡ j)) a.drive_ids d.id
                hit all.sound,
            refl,
            refl,
          ))
          (λ d out. inr (
            λ e r same.
                let hit = all.complete e r in
                cc (sym out ∙ ap (includes a.drive_ids) (sym same) ∙ hit),
            refl,
          ))),
    rw files_now (
        update_many-Alongside _ _ (FileAfter w root) w.files
          (λ f hit. inl (
            from_includes (λ j. (e : Drive) × Reaches w.drives root e × Holds e j) a.file_ids f.id
                hit all.files_sound,
            refl,
            refl,
          ))
          (λ f out.
            inr (
              λ e r held. let hit = all.files_complete e f.id r held in cc (sym out ∙ hit),
              refl,
            ))),
  )

abbrev Buried : Found → World → Result (Unit {0}) × World → Type 0
Buried a w (ok x, w') =
    (t t' : ℕ) × (u : String) × (w'.drives
      ≡ update_many (λ d. includes a.drive_ids d.id) (λ d. record d { life = bury t u d.life })
          w.drives)
    × (w'.files
        ≡ update_many (λ f. includes a.file_ids f.id) (λ f. record f { life = bury t' u f.life })
            w.files)
Buried a w (err e t, w') = ⊥

delete_found-Buried : (user : User) (a : Found) (w : World) → Buried a w (delete_found user a w)
unfolding delete_found
delete_found-Buried user a w =
    let after : Result (Unit {0}) × World → Type 0 = Buried a w in
    date_now-post after _ w (
      modify-post after _ _ _
        (date_now-post after _ _ (modify_end-post after _ _ (_, _, user.id, refl, refl))))

-- Where a rank of ids falls from each node to its children, and the depth is above the rank of the id,
-- deleting a drive ends. It throws and changes nothing, or it returns the live node with the id, and
-- then: each node that can be reached from it through live children is deleted, and so is the file of
-- each file node among these; every other node and file is as it was before, and there are as many nodes
-- and files as before, each in its place.
pub delete_drive-Deleted :
    (rank : String → ℕ) (depth : ℕ) (caller : Option User) (i : String) (w : World)
    → All (IsRanked rank) w.drives
    → rank i < depth
    → Deleted i w (delete_drive depth caller i w)
unfolding delete_drive
delete_drive-Deleted rank depth caller i w ranked deep =
    let after : Result (Option Drive) × World → Type 0 = Deleted i w in
    or_throw-post after caller _ _ _ w (λ _. refl)
      λ user _. gets-post after _ _ w (
        or_throw-post after _ _ _ _ w (λ _. refl)
          λ root found.
            throw_if-post after _ _ _ _ w (λ _. refl)
              λ _. gets-post after _ _ w (
                let named : root.id ≡ i =
                  ground (arith, find_one-holds (live_drive i) w.drives found, eq_iff root.id i) in
                let (a, e) =
                  recursive_find_drives_total rank w.drives ranked depth root (rw named deep)
                    (find_one-All (IsRanked rank) (live_drive i) w.drives ranked found) in
                rw e (
                  >>=-via after (Buried a w) (delete_found user a) _ w
                    (delete_found-Buried user a w) (λ _ _ _ q. absurd q)
                    (λ _ w' (t, t', u, drives_now, files_now). pure-post after _ w' (
                      buried i w root found a
                        (recursive_find_drives-Collects depth w.drives root a e) t t' u w'
                        drives_now files_now)))))
