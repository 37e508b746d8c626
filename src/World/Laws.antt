-- ===== src/World/Laws.antt =====
-- Inversion of the handlers' monad, and relations between the states before and after.
use lectern_server.Prelude.{Bool, true, false, ◌≡◌, refl, Option, none, some}
use lectern_server.Error.{AppError, Result, ok, err}
use lectern_server.World.{
  World, M, after, ◌>>=◌, ◌>>◌, require, found, lift, read_files, query, execute_total, written,
  change_files, stored, execute,
}
use lectern_server.Files.{Files}
use lectern_server.Database.{Database}

after-eq-ok :
    {A B : Type 0} (r : Result A × World) (f : A → M B) {b : B} {w' : World}
    → after r f ≡ (ok b, w')
    → (a : A) × (v : World) × (r ≡ (ok a, v)) × (f a v ≡ (ok b, w'))
unfolding after
after-eq-ok (ok a, v) f h = (a, v, refl, h)
after-eq-ok (err e, v) f h = cc

-- A step that lets the rest go on did so with a value and a state.
pub >>=-eq-ok :
    {A B : Type 0} (m : M A) (f : A → M B) (w : World) {b : B} {w' : World}
    → (m >>= f) w ≡ (ok b, w')
    → (a : A) × (v : World) × (m w ≡ (ok a, v)) × (f a v ≡ (ok b, w'))
>>=-eq-ok m f w h = after-eq-ok (m w) f h

-- How far a run that returns a value got, step by step.
module _ {B : Type 0} {b : B} {w' : World} where
  pub require_then :
      (t : Bool) (e : AppError) (k : M B) (w : World)
      → (require t e >> k) w ≡ (ok b, w')
      → (t ≡ true) × (k w ≡ (ok b, w'))
  unfolding require after
  require_then true e k w h = (refl, h)
  require_then false e k w h = cc

  pub found_then :
      {A : Type 0} (o : Option A) (e : AppError) (k : A → M B) (w : World)
      → (found o e >>= k) w ≡ (ok b, w')
      → (a : A) × (o ≡ some a) × (k a w ≡ (ok b, w'))
  unfolding found after
  found_then none e k w h = cc
  found_then (some a) e k w h = (a, refl, h)

  pub lift_then :
      {A : Type 0} (r : Result A) (k : A → M B) (w : World)
      → (lift r >>= k) w ≡ (ok b, w')
      → (a : A) × (r ≡ ok a) × (k a w ≡ (ok b, w'))
  unfolding after
  lift_then (ok a) k w h = (a, refl, h)
  lift_then (err e) k w h = cc

  pub read_then :
      {A : Type 0} (f : Files → A) (k : A → M B) (w : World)
      → (read_files f >>= k) w ≡ (ok b, w')
      → k (f w.files) w ≡ (ok b, w')
  unfolding after
  read_then f k w h = h

  pub query_then :
      {A : Type 0} (f : Database → A) (k : A → M B) (w : World)
      → (query f >>= k) w ≡ (ok b, w')
      → k (f w.db) w ≡ (ok b, w')
  unfolding after
  query_then f k w h = h

  pub total_then :
      (f : Database → Database) (k : M B) (w : World)
      → (execute_total f >> k) w ≡ (ok b, w')
      → k (record w { db = f w.db }) ≡ (ok b, w')
  unfolding after
  total_then f k w h = h

  written_then :
      (e : AppError) (k : M B) (w : World) (o : Option Files)
      → after (written e w o) (λ u. k) ≡ (ok b, w')
      → (gs : Files) × (o ≡ some gs) × (k (record w { files = gs }) ≡ (ok b, w'))
  unfolding after
  written_then e k w none h = cc
  written_then e k w (some gs) h = (gs, refl, h)

  pub change_then :
      (e : AppError) (f : Files → Option Files) (k : M B) (w : World)
      → (change_files e f >> k) w ≡ (ok b, w')
      → (gs : Files) × (f w.files ≡ some gs) × (k (record w { files = gs }) ≡ (ok b, w'))
  unfolding change_files
  change_then e f k w h = written_then e k w (f w.files) h

  stored_then :
      (k : M B) (w : World) (o : Option Database)
      → after (stored w o) (λ u. k) ≡ (ok b, w')
      → (db : Database) × (o ≡ some db) × (k (record w { db = db }) ≡ (ok b, w'))
  unfolding after
  stored_then k w none h = cc
  stored_then k w (some db) h = (db, refl, h)

  pub execute_then :
      (f : Database → Option Database) (k : M B) (w : World)
      → (execute f >> k) w ≡ (ok b, w')
      → (db : Database) × (f w.db ≡ some db) × (k (record w { db = db }) ≡ (ok b, w'))
  unfolding execute
  execute_then f k w h = stored_then k w (f w.db) h

-- Whatever `m` does, a state and the one that `m` leaves are related.
abbrev pub Leaves : {A : Type 0} → (World → World → Type 0) → M A → Type 0
Leaves R m = (w : World) → R w (m w).1

module _ (R : World → World → Type 0) (R_refl : (w : World) → R w w)
    (R_trans : (u v w : World) → R u v → R v w → R u w) where
  after_leaves :
      {A B : Type 0} (w : World) (r : Result A × World) (f : A → M B)
      → R w r.1
      → ((a : A) (v : World) → r ≡ (ok a, v) → R v (f a v).1)
      → R w (after r f).1
  unfolding after
  after_leaves w (ok a, v) f h k = R_trans w v (f a v).1 h (k a v refl)
  after_leaves w (err e, v) f h k = h

  -- The rest need hold only for what `m` returned.
  pub Leaves-bind_ok :
      {A B : Type 0} (m : M A) (f : A → M B) (w : World)
      → R w (m w).1
      → ((a : A) (v : World) → m w ≡ (ok a, v) → R v (f a v).1)
      → R w ((m >>= f) w).1
  Leaves-bind_ok m f w hm hf = after_leaves w (m w) f hm hf

  pub Leaves-bind :
      {A B : Type 0} (m : M A) (f : A → M B)
      → Leaves R m
      → ((a : A) → Leaves R (f a))
      → Leaves R (m >>= f)
  Leaves-bind m f hm hf w = Leaves-bind_ok m f w (hm w) (λ a v e. hf a v)

  pub Leaves-require : (b : Bool) (e : AppError) → Leaves R (require b e)
  unfolding require
  Leaves-require true e w = R_refl w
  Leaves-require false e w = R_refl w

  pub Leaves-found : {A : Type 0} (o : Option A) (e : AppError) → Leaves R (found o e)
  unfolding found
  Leaves-found none e w = R_refl w
  Leaves-found (some a) e w = R_refl w

  -- The rest of a run counts only where the test, the look-up or the reading went well.
  pub require_next :
      {B : Type 0} (t : Bool) (e : AppError) (k : M B) (w : World)
      → (t ≡ true → R w (k w).1)
      → R w ((require t e >> k) w).1
  unfolding require after
  require_next true e k w h = h refl
  require_next false e k w h = R_refl w

  pub found_next :
      {A B : Type 0} (o : Option A) (e : AppError) (k : A → M B) (w : World)
      → ((a : A) → o ≡ some a → R w (k a w).1)
      → R w ((found o e >>= k) w).1
  unfolding found after
  found_next none e k w h = R_refl w
  found_next (some a) e k w h = h a refl

  pub lift_next :
      {A B : Type 0} (r : Result A) (k : A → M B) (w : World)
      → ((a : A) → r ≡ ok a → R w (k a w).1)
      → R w ((lift r >>= k) w).1
  unfolding after
  lift_next (ok a) k w h = h a refl
  lift_next (err e) k w h = R_refl w

  pub query_next :
      {A B : Type 0} (f : Database → A) (k : A → M B) (w : World)
      → R w (k (f w.db) w).1
      → R w ((query f >>= k) w).1
  unfolding after
  query_next f k w h = h
