-- ===== src/Model/Action/Post.antt =====
-- Rules for a property of the outcome of a core function, one for each kind of step.
use dmp.Base.{ℕ, suc, ◌≡◌, refl, String, Bool, true, false, Option, none, some}
use dmp.Model.World.{World}
use dmp.Model.Action.{
  Action, CoreErrors, Result, ok, err, resume, ◌>>=◌, pure, throw, throw_if, or_throw, gets, modify,
  uuid, date_now, try_catch,
}

module _ {A B : Type 0} (P : Result B × World → Type 0) where
  -- After a call, whichever way it ended.
  pub >>=-post :
      (m : Action A) (k : A → Action B) (w : World)
      → ((e : CoreErrors) (t : String) → (m w).0 ≡ err e t → P (err e t, (m w).1))
      → ((a : A) → (m w).0 ≡ ok a → P (k a (m w).1))
      → P ((m >>= k) w)
  unfolding ◌>>=◌
  >>=-post m k w failed done = go (m w).0 refl
    where
      go : (r : Result A) → (m w).0 ≡ r → P (resume k (r, (m w).1))
      go (ok a) e = done a e
      go (err c t) e = failed c t e

  -- The same, by what is known of the call's outcome.
  pub >>=-via :
      (Q : Result A × World → Type 0) (m : Action A) (k : A → Action B) (w : World)
      → Q (m w)
      → ((e : CoreErrors) (t : String) (w' : World) → Q (err e t, w') → P (err e t, w'))
      → ((a : A) (w' : World) → Q (ok a, w') → P (k a w'))
      → P ((m >>= k) w)
  unfolding ◌>>=◌
  >>=-via Q m k w known failed done = go (m w) known
    where
      go : (r : Result A × World) → Q r → P (resume k r)
      go (ok a, w') q = done a w' q
      go (err c t, w') q = failed c t w' q

  pub or_throw-post :
      (o : Option A) (c : CoreErrors) (t : String) (k : A → Action B) (w : World)
      → (o ≡ none → P (err c t, w))
      → ((a : A) → o ≡ some a → P (k a w))
      → P ((or_throw o c t >>= k) w)
  unfolding ◌>>=◌
  or_throw-post none c t k w absent found = absent refl
  or_throw-post (some a) c t k w absent found = found a refl

  pub gets-post :
      (f : World → A) (k : A → Action B) (w : World) → P (k (f w) w) → P ((gets f >>= k) w)
  unfolding ◌>>=◌
  gets-post f k w h = h

module _ {B : Type 0} (P : Result B × World → Type 0) where
  pub throw_if-post :
      (b : Bool) (c : CoreErrors) (t : String) (k : Unit {0} → Action B) (w : World)
      → (b ≡ true → P (err c t, w))
      → (b ≡ false → P (k tt w))
      → P ((throw_if b c t >>= k) w)
  unfolding ◌>>=◌
  throw_if-post true c t k w thrown passed = thrown refl
  throw_if-post false c t k w thrown passed = passed refl

  pub modify-post :
      (f : World → World) (k : Unit {0} → Action B) (w : World)
      → P (k tt (f w))
      → P ((modify f >>= k) w)
  unfolding ◌>>=◌
  modify-post f k w h = h

  pub uuid-post :
      (k : String → Action B) (w : World)
      → P (k (w.env.uuid w.issued) (record w { issued = suc w.issued }))
      → P ((uuid >>= k) w)
  unfolding ◌>>=◌
  uuid-post k w h = h

  pub date_now-post :
      (k : ℕ → Action B) (w : World)
      → P (k (w.env.now w.ticks) (record w { ticks = suc w.ticks }))
      → P ((date_now >>= k) w)
  unfolding ◌>>=◌
  date_now-post k w h = h

  pub pure-post : (b : B) (w : World) → P (ok b, w) → P (pure b w)
  unfolding ◌>>=◌
  pure-post b w h = h

  pub gets_end-post : (f : World → B) (w : World) → P (ok (f w), w) → P (gets f w)
  unfolding ◌>>=◌
  gets_end-post f w h = h

  pub throw-post : (c : CoreErrors) (t : String) (w : World) → P (err c t, w) → P (throw c t w)
  unfolding ◌>>=◌
  throw-post c t w h = h

  pub try_catch-via :
      (Q : Result B × World → Type 0) (m h : Action B) (w : World)
      → Q (m w)
      → ((b : B) (w' : World) → Q (ok b, w') → P (ok b, w'))
      → ((e : CoreErrors) (t : String) (w' : World) → Q (err e t, w') → P (h w'))
      → P (try_catch m h w)
  unfolding try_catch
  try_catch-via Q m h w known returned caught = go (m w) known
    where
      go :
          (r : Result B × World)
          → Q r
          → P (let (a, w') = r in elim a [ ok b ↦ (ok b, w') | err e t ↦ h w' ])
      go (ok b, w') q = returned b w' q
      go (err e t, w') q = caught e t w' q

pub modify_end-post :
    (P : Result (Unit {0}) × World → Type 0) (f : World → World) (w : World)
    → P (ok tt, f w)
    → P (modify f w)
unfolding ◌>>=◌
modify_end-post P f w h = h
