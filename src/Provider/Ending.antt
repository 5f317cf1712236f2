-- ===== src/Provider/Ending.antt =====
-- Disposal never gets stuck: `ProviderLifecycle.dispose`.
use georesearch_dsh.Prelude.{
  ℕ, zero, suc, ◌-◌, ◌<◌, ◌≡◌, refl, true, nat_eq, arith, Bool-cases, inl, inr,
}
use georesearch_dsh.Provider.{Provider, Disposal, new_provider, leave, cancelled, clean_up, cleaned}
use georesearch_dsh.Provider.Steps.{
  Step, Steps, stop, follow, leaves, cancels, cleans_up, cleans, IsSound, is_started, is_disposed,
  Steps-IsSound, new-IsSound,
}

-- Some steps lead to the end of the disposal.
abbrev pub Ends : Provider → Type 0
Ends p = (q : Provider) × Steps p q × (q.disposal ≡ Disposal.finished)

after : {p q : Provider} → Step p q → Ends q → Ends p
after a (r, run, e) = (r, follow a run, e)

from_cleaning : (p : Provider) → p.disposal ≡ Disposal.cleaning → Ends p
unfolding cleaned
from_cleaning p h = (cleaned true p, follow (cleans true h) stop, refl)

from_drained : (p : Provider) → p.disposal ≡ Disposal.drained → Ends p
unfolding clean_up
from_drained p h = after (cleans_up h) (from_cleaning (clean_up p) refl)

from_waiting :
    (n : ℕ) (p : Provider)
    → p.active_count ≡ n
    → 0 < p.active_count
    → p.disposal ≡ Disposal.waiting
    → Ends p
unfolding leave
from_waiting zero p e h d = absurd (omega arith)
from_waiting (suc n) p e h d = elim (Bool-cases (nat_eq (p.active_count - 1) 0)) [
  | inl last ↦ after (leaves h) (from_drained (leave p) (ground arith))
  | inr more ↦
      after (leaves h) (from_waiting n (leave p) (ground arith) (ground arith) (ground arith))
]

from_cancelling : (p : Provider) → p.disposal ≡ Disposal.cancelling → Ends p
unfolding cancelled
from_cancelling p h = elim (Bool-cases (nat_eq p.active_count 0)) [
  | inl none_left ↦ after (cancels true h) (from_drained (cancelled true p) (ground arith))
  | inr some_left ↦
      after (cancels true h)
        (from_waiting p.active_count (cancelled true p) refl (ground arith) (ground arith))
]

from_started :
    (p : Provider) (d : Disposal) → p.disposal ≡ d → is_started d ≡ true → IsSound p → Ends p
from_started p Disposal.not_started e h s = cc
from_started p Disposal.cancelling e h s = from_cancelling p e
from_started p Disposal.waiting e h s = from_waiting p.active_count p refl (ground (arith, s)) e
from_started p Disposal.drained e h s = from_drained p e
from_started p Disposal.cleaning e h s = from_cleaning p e
from_started p Disposal.finished e h s = (p, stop, e)

-- However a provider came to where it is, if its disposal has started, then steps lead from there to
-- the end of the disposal, and the provider is disposed then: no order of calls and hooks leaves it
-- waiting for a wake-up that never comes.
pub disposal_can_end :
    (p : Provider)
    → Steps new_provider p
    → is_started p.disposal ≡ true
    → (q : Provider) × Steps p q
      × (q.disposal ≡ Disposal.finished)
      × (is_disposed q.current_state ≡ true)
disposal_can_end p run h =
    let s = Steps-IsSound run new-IsSound in
    let (q, more, e) = from_started p p.disposal refl h s in
    (q, more, e, ground (arith, Steps-IsSound more s))
