-- ===== src/Sync/Keeps.antt =====
-- Computations whose every run relates the cycle before to the cycle after.
use qlabs_catalog_sync.Prelude.{ℕ, zero, suc, sym, subst, List, ◌∷◌, String, Result, ok, err}
use qlabs_catalog_sync.Changes.{ConnectorError}
use qlabs_catalog_sync.Sync.Settings.{Call}
use qlabs_catalog_sync.Sync.Cycle.{Cycle, Sync, Raised, ◌>>=◌, catch, handled, continue}
use qlabs_catalog_sync.Sync.Calls.{call_with}
use qlabs_catalog_sync.Sync.Retry.{repeat, call_with-Attempted}

pub record IsPreorder (R : Cycle → Cycle → Type 0) : Type 0 where
  pub same : (c : Cycle) → R c c
  pub join : (a b c : Cycle) → R a b → R b c → R a c

abbrev pub Keeps : {A : Type 0} → (Cycle → Cycle → Type 0) → Sync A → Type 0
Keeps R m = (c : Cycle) → R c (m c).1

module _ (R : Cycle → Cycle → Type 0) (order : IsPreorder R) where
  pub continue-Keeps :
      {A B : Type 0} (f : A → Sync B) (c : Cycle) (out : Result Raised A × Cycle)
      → R c out.1
      → ((a : A) → Keeps R (f a))
      → R c (continue f out).1
  continue-Keeps f c (ok a, c') h k = order.join c c' _ h (k a c')
  continue-Keeps f c (err x, c') h k = h

  pub bind-Keeps :
      {A B : Type 0} (m : Sync A) (f : A → Sync B)
      → Keeps R m
      → ((a : A) → Keeps R (f a))
      → Keeps R (m >>= f)
  bind-Keeps m f h k c = continue-Keeps f c (m c) (h c) k

  handled-Keeps :
      {A : Type 0} (handler : Raised → Sync A) (c : Cycle) (out : Result Raised A × Cycle)
      → R c out.1
      → ((x : Raised) → Keeps R (handler x))
      → R c (handled handler out).1
  handled-Keeps handler c (ok a, c') h k = h
  handled-Keeps handler c (err x, c') h k = order.join c c' _ h (k x c')

  pub catch-Keeps :
      {A : Type 0} (m : Sync A) (handler : Raised → Sync A)
      → Keeps R m
      → ((x : Raised) → Keeps R (handler x))
      → Keeps R (catch m handler)
  unfolding catch
  catch-Keeps m handler h k c = handled-Keeps handler c (m c) (h c) k

  repeat-Keeps :
      (call : Call)
      → ((c : Cycle) → R c (record c { history = call ∷ c.history }))
      → (n : ℕ) (c : Cycle) → R c (record c { history = repeat n call c.history })
  repeat-Keeps call h zero c = order.same c
  repeat-Keeps call h (suc n) c = order.join c _ _ (h c) (repeat-Keeps call h n _)

  -- A call, however often it is tried.
  pub call_with-Keeps :
      {A : Type 0} (endpoint : String) (call : Call) (answer : List Call → Result ConnectorError A)
      (left : ℕ)
      → ((c : Cycle) → R c (record c { history = call ∷ c.history }))
      → Keeps R (call_with endpoint call answer left)
  call_with-Keeps endpoint call answer left h c =
      let tried = call_with-Attempted endpoint call answer left c in
      subst (R c) (sym tried.state) (repeat-Keeps call h tried.made c)
