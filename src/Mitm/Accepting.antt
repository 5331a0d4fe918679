-- ===== src/Mitm/Accepting.antt =====
-- The listener of one connection in cmd/proxy/outbound.go.
use lhotse_agent.Prelude.{ℕ, suc, ◌+◌, ◌≡◌, refl, true, false, if◌then◌else◌, List, [], ◌∷◌, arith}
use lhotse_agent.Mitm.{
  Listener, new_listener, Event, accepts, refuses, closes, Step, accept, accept_closed, close, Run,
  rest, followed,
}

abbrev pub accepted : List Event → ℕ
accepted [] = 0
accepted (accepts ∷ es) = suc (accepted es)
accepted (refuses ∷ es) = accepted es
accepted (closes ∷ es) = accepted es

abbrev pub taken : Listener → ℕ
taken l = if l.used then 1 else 0

-- The listener gives out its connection as often as it becomes used.
Run-accepted : (l n : Listener) (es : List Event) → Run l es n → taken l + accepted es ≡ taken n
Run-accepted l n [] (rest _) = omega arith
Run-accepted l n (e ∷ es) (followed (accept done) more) = omega (arith, Run-accepted _ n es more)
Run-accepted l n (e ∷ es) (followed accept_closed more) = Run-accepted _ n es more
Run-accepted l n (e ∷ es) (followed (close _) more) = Run-accepted _ n es more

-- A listener that is closed stays closed.
Run-done : (l n : Listener) (es : List Event) → Run l es n → l.done ≡ true → n.done ≡ true
Run-done l n [] (rest _) h = h
Run-done l n (e ∷ es) (followed (accept done) more) h = Run-done _ n es more h
Run-done l n (e ∷ es) (followed accept_closed more) h = Run-done _ n es more h
Run-done l n (e ∷ es) (followed (close _) more) h = Run-done _ n es more refl

-- In a run of a new listener, its connection is given out exactly once if it becomes used and never
-- otherwise; and where Accept then answers net.ErrClosed the connection was given out and the
-- listener closed before.
pub Run-new_listener :
    (l : Listener) (es : List Event)
    → Run new_listener es l
    → (accepted es ≡ taken l)
      × ((m : Listener) → Step l refuses m → (accepted es ≡ 1) × (l.done ≡ true) × (m ≡ l))
unfolding new_listener
Run-new_listener l es r = (once, closed l es once)
  where
    once : accepted es ≡ taken l
    once = omega (arith, Run-accepted (record { used = false; done = false }) l es r)

    closed :
        (l : Listener) (es : List Event)
        → accepted es ≡ taken l
        → (m : Listener) → Step l refuses m
        → (accepted es ≡ 1) × (l.done ≡ true) × (m ≡ l)
    closed l es o m accept_closed = (o, refl, refl)
