-- ===== src/Running/Commands.antt =====
-- The commands of the proxy control on the abstract state, the predicate of the proxies that run.
use oxiproxy.Prelude.{
  ℕ, ◌≡◌, ◌⊎◌, ◌↔◌, inl, inr, Bool, true, false, List, [], ◌∷◌, Text, text_eq, if◌then◌else◌,
  Bool-cases,
}
use oxiproxy.Listeners.{ProxyConfig}
use oxiproxy.Running.{is_direct_config}
use oxiproxy.Running.View.{is_proxy}

-- What a node is asked to do: by the controller, and when a client's connection is gone.
pub data Command : Type 0 where
  start stop : Text → ℕ → Command
  start_direct : ProxyConfig → Command
  disconnect : Text → Command

-- The running proxies, as a predicate.
abbrev pub View : Type 1
View = Text → ℕ → Type 0

abbrev pub without : Text → ℕ → View → View
without client id v c i = v c i × (is_proxy c i client id ≡ false)

abbrev pub with : Text → ℕ → View → View
with client id v c i = v c i ⊎ (is_proxy c i client id ≡ true)

-- The proxies that run after a command, from whether it succeeded and those before it.
abbrev pub after : Command → Bool → View → View
after (start client id) true v = with client id v
after (start client id) false v = without client id v
after (stop client id) fine v = without client id v
after (start_direct c) true v = with [] c.proxy_id v
after (start_direct c) false v = if is_direct_config c then without [] c.proxy_id v else v
after (disconnect client) fine v = λ c i. v c i × (text_eq c client ≡ false)

unfoldable pub replay : List Command → List Bool → View → View
replay (c ∷ cs) (fine ∷ results) v = replay cs results (after c fine v)
replay cs results v = v

without_same : {A B P : Type 0} → A ↔ B → (A × P) ↔ (B × P)
without_same h = (λ a. (h.0 a.0, a.1), λ b. (h.1 b.0, b.1))

with_same :
    (client : Text) (id : ℕ) (v w : View)
    → ((c : Text) (i : ℕ) → v c i ↔ w c i)
    → (c : Text) (i : ℕ) → with client id v c i ↔ with client id w c i
with_same client id v w h c i = (
  λ runs. elim runs [ inl old ↦ inl ((h c i).0 old) | inr own ↦ inr own ],
  λ runs. elim runs [ inl old ↦ inl ((h c i).1 old) | inr own ↦ inr own ],
)

-- Views that agree still do after the same command.
pub after_same :
    (command : Command) (fine : Bool) (v w : View)
    → ((c : Text) (i : ℕ) → v c i ↔ w c i)
    → (c : Text) (i : ℕ) → after command fine v c i ↔ after command fine w c i
after_same (start client id) true v w h c i = with_same client id v w h c i
after_same (start client id) false v w h c i = without_same (h c i)
after_same (stop client id) fine v w h c i = without_same (h c i)
after_same (disconnect client) fine v w h c i = without_same (h c i)
after_same (start_direct cfg) true v w h c i = with_same [] cfg.proxy_id v w h c i
after_same (start_direct cfg) false v w h c i = elim (Bool-cases (is_direct_config cfg)) [
  | inl direct ↦ rw direct (without_same (h c i))
  | inr bad ↦ rw bad (h c i)
]

pub replay_same :
    (cs : List Command) (results : List Bool) (v w : View)
    → ((c : Text) (i : ℕ) → v c i ↔ w c i)
    → (c : Text) (i : ℕ) → replay cs results v c i ↔ replay cs results w c i
unfolding replay
replay_same [] results v w h c i = h c i
replay_same (command ∷ cs) [] v w h c i = h c i
replay_same (command ∷ cs) (fine ∷ results) v w h c i =
    replay_same cs results (after command fine v) (after command fine w)
      (after_same command fine v w h) c i
