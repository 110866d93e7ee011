-- ===== src/Scripts/PushEvents.antt =====
-- scripts/push_events.go. The JSON and HTTP libraries and the server are a parameter; times are
-- milliseconds, what `rand.Intn` returns is an argument.
pub mod Counts
use Prim.Native.String.{◌++◌}
use scorpion.Prelude.{
  ℕ, zero, suc, ◌+◌, ◌*◌, String, Bool, true, false, List, [], ◌∷◌, ◌==◌, ltb, leb, Result, ok, err,
  if◌then◌else◌,
}
use scorpion.Prelude.Int.{ℤ, pos, pos_part}
use scorpion.Scripts.Token.{Sign, mint_token}

-- A value of a sample payload; a number with a fraction is its text.
pub data Datum : Type 0 where
  text fraction : String → Datum
  number : ℕ → Datum
  flag : Bool → Datum

-- A map, which the encoder writes in the order of its keys.
abbrev pub Payload : Type 0
Payload = List (String × Datum)

unfoldable pub fake_payloads : List Payload
fake_payloads =
    (("message", text "Hello, Scorpion!") ∷ ("priority", text "low") ∷ [])
    ∷ (("action", text "login") ∷ ("device", text "mobile") ∷ ("os", text "android") ∷ [])
    ∷ (("order_id", text "ORD-9921") ∷ ("status", text "shipped") ∷ ("eta", text "2026-04-28") ∷ [])
    ∷ (("alert", text "cpu_high") ∷ ("value", fraction "94.2") ∷ ("host", text "node-03") ∷ [])
    ∷ (("score", number 1500) ∷ ("level", number 7) ∷ ("xp_earned", number 250) ∷ [])
    ∷ (("chat", text "Hey there!") ∷ ("room", text "general") ∷ [])
    ∷ (("metric", text "latency_p99") ∷ ("ms", number 38) ∷ [])
    ∷ (("feature_flag", text "dark_mode") ∷ ("enabled", flag true) ∷ [])
    ∷ (("promo_code", text "SPRING26") ∷ ("discount", number 20) ∷ [])
    ∷ (("notification", text "You have a new follower") ∷ ("follower", text "jane_doe") ∷ [])
    ∷ []

pub record Flags : Type 0 where
  pub url : String
  pub client : String
  pub secret : String
  pub count : ℤ
  pub interval : ℕ
  pub type : String
  pub insecure : Bool

abbrev pub defaults : Flags
defaults = record {
  url = "http://localhost:8443";
  client = "user-1";
  secret = "change-me-real-token-secret";
  count = pos 10;
  interval = 200;
  type = "fake.event";
  insecure = true;
}

pub record PushRequest : Type 0 where
  pub endpoint : String
  pub content_type : String
  pub authorization : String
  pub body : String

pub record Outside : Type 1 where
  pub Server : Type 0
  pub sign : Sign
  -- `json.Marshal` of a payload, and of an event's type with its data
  pub marshal_data : Payload → Result String
  pub marshal_request : (type body : String) → Result String
  pub new_request : (endpoint body : String) → Result (Unit {0})
  -- `client.Do`: the status of the response
  pub send : (insecure : Bool) → PushRequest → Server → Result ℕ × Server

-- What the script logs of a push, and the data that it sent.
pub data Line : Type 0 where
  request_error : (i : ℕ) → String → Line
  response : (i : ℕ) (good : Bool) (status : ℕ) (body : String) → Line

abbrev pub put : String → Datum → Payload → Payload
put k v [] = (k, v) ∷ []
put k v ((j, w) ∷ m) = if j == k then (k, v) ∷ m else (j, w) ∷ put k v m

abbrev stamped : ℕ → ℕ → Payload → Payload
stamped i ts p = put "ts" (number ts) (put "seq" (number i) p)

-- The payload that was drawn, after its two fields are set, and the pool that shares it.
unfoldable pub draw : (pick i ts : ℕ) → List Payload → Payload × List Payload
draw pick i ts [] = ([], [])
draw zero i ts (p ∷ pool) = (stamped i ts p, stamped i ts p ∷ pool)
draw (suc n) i ts (p ∷ pool) = let (q, rest) = draw n i ts pool in (q, p ∷ rest)

module _ (o : Outside) where
  -- The log has its latest line first.
  pub record Run : Type 0 where
    pub server : o.Server
    pub pool : List Payload
    pub success_count : ℕ
    pub slept : ℕ
    pub lines : List Line

  module _ (flags : Flags) (token : String) (pick now : ℕ → ℕ) where
    abbrev pub endpoint : String
    endpoint = flags.url ++ "/v1/events/" ++ flags.client

    abbrev pub request_of : String → PushRequest
    request_of body = record {
      endpoint = endpoint;
      content_type = "application/json";
      authorization = "Bearer " ++ token;
      body = body;
    }

    pause : Run → Run
    pause x = record x { slept = x.slept + flags.interval }

    -- What follows the call of `client.Do`.
    sent : (i : ℕ) (body : String) → Result ℕ × o.Server → Run → Run
    unfolding pause
    sent i body (err e, s) x = pause (record x { server = s; lines = request_error i e ∷ x.lines })
    sent i body (ok status, s) x =
        let good = ltb status 300 in
        let y = record x {
          server = s;
          success_count = if good then suc x.success_count else x.success_count;
          lines = response i good status body ∷ x.lines;
        } in
        if ltb i (pos_part flags.count) then pause y else y

    built : ℕ → (data_bytes body : String) → Result (Unit {0}) → Run → Result Run
    unfolding sent
    built i data_bytes body (err e) x = err ("failed to build request: " ++ e)
    built i data_bytes body (ok _) x =
        ok (sent i data_bytes (o.send flags.insecure (request_of body) x.server) x)

    encoded : ℕ → (data_bytes : String) → Result String → Run → Result Run
    unfolding built
    encoded i data_bytes (err e) x = err ("failed to marshal request: " ++ e)
    encoded i data_bytes (ok body) x = built i data_bytes body (o.new_request endpoint body) x

    marshalled : ℕ → Result String → Run → Result Run
    unfolding encoded
    marshalled i (err e) x = err ("failed to marshal data: " ++ e)
    marshalled i (ok data_bytes) x =
        encoded i data_bytes (o.marshal_request flags.type data_bytes) x

    -- One round of the loop; an error is a fatal one.
    push_one : ℕ → Run → Result Run
    unfolding marshalled draw
    push_one i x =
        let (payload, pool) = draw (pick i) i (now i) x.pool in
        marshalled i (o.marshal_data payload) (record x { pool = pool })

    -- The rounds that are left, from `i` on.
    unfoldable pub pushes : (left i : ℕ) → Result Run → Result Run
    unfolding push_one
    pushes zero i x = x
    pushes (suc left) i (err e) = err e
    pushes (suc left) i (ok x) = pushes left (suc i) (push_one i x)

  minted : Flags → (pick now : ℕ → ℕ) → o.Server → Result String → Result Run
  unfolding pushes fake_payloads
  minted flags pick now s (err e) = err e
  minted flags pick now s (ok token) =
      pushes flags token pick now (pos_part flags.count) 1
        (ok (record { server = s; pool = fake_payloads; success_count = 0; slept = 0; lines = [] }))

  -- `main`, started at a time in seconds.
  unfoldable pub push_events : Flags → (started : ℕ) (pick now : ℕ → ℕ) → o.Server → Result Run
  unfolding minted
  push_events flags started pick now s =
      minted flags pick now s (mint_token o.sign flags.client flags.secret started)
