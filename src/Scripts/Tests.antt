-- ===== src/Scripts/Tests.antt =====
-- The scripts on concrete inputs.
use scorpion.Prelude.{ℕ, ◌+◌, ◌≡◌, refl, ok, err, ltb, if◌then◌else◌}
use scorpion.Prelude.Int.{pos}
use scorpion.Scripts.Token.{mint_token, main, prints}
use scorpion.Scripts.PushEvents.{Flags, defaults, Outside, Run, push_events}
use scorpion.Scripts.PushEvents.Counts.{goods, numbers, down_from, push_events_counts}

-- A server that fails its second call and refuses from the fourth on.
abbrev flaky : Outside
flaky = record {
  Server = ℕ;
  sign = λ c key. ok c.sub;
  marshal_data = λ p. ok "data";
  marshal_request = λ t d. ok "body";
  new_request = λ e b. ok tt;
  send = λ b q n. (
    if ltb n 1
        then ok 201
        else if ltb n 2
        then err "timeout"
        else if ltb n 3
        then ok 201
        else ok 429,
    n + 1,
  );
}

abbrev four : Flags
four = record defaults { count = pos 4 }

minted_token : mint_token flaky.sign "user-1" "s" 100 ≡ ok "user-1"
unfolding mint_token
minted_token = refl

push_events_counts_example :
    (x : Run flaky) × (push_events flaky four 100 (λ i. i) (λ i. 5) 0 ≡ ok x)
    × (x.success_count ≡ goods x.lines)
    × (numbers x.lines ≡ down_from 4)
push_events_counts_example =
    push_events_counts flaky (λ c key. (c.sub, refl)) (λ p. ("data", refl)) (λ t d. ("body", refl))
      (λ u b. refl) four 100 (λ i. i) (λ i. 5) 0

printed_token : main flaky.sign 100 ≡ prints "12345"
unfolding main
printed_token = refl
