-- ===== src/Pyth/Client/Tests.antt =====
-- Concrete runs of `PythClient`.
use mathlib.Core.List.{foldl}
use solana_kit_plugins.Prelude.{
  ℕ, ◌+◌, ◌-◌, ◌*◌, ◌/◌, ◌^◌, String, [], ◌∷◌, List, ◌++◌, none, true, ltb, ◌≡◌, refl, replicate,
  arith,
}
use solana_kit_plugins.Prelude.Int.{pos, pos_part}
use solana_kit_plugins.Prelude.Number.{Number}
use solana_kit_plugins.Prelude.Result.{ok}
use solana_kit_plugins.Bytes.{Bytes}
use solana_kit_plugins.Connection.{Net}
use solana_kit_plugins.Pyth.{MerkleUpdate, AccumulatorUpdate}
use solana_kit_plugins.Pyth.Accumulator.{parse_accumulator_update, add_update}
use solana_kit_plugins.Pyth.Accumulator.RoundTrip.{wire, parse_accumulator_update-wire}
use solana_kit_plugins.Pyth.Client.{
  Env, Instruction, HermesResponse, HermesPriceData, is_pyth_price_stale,
}
use Prim.Native.String
use solana_kit_plugins.Pyth.Client.Stale.{is_pyth_price_stale_lem, judged}
use solana_kit_plugins.Prelude.{inr}
use solana_kit_plugins.Pyth.Client.Post.{Shared}

-- whole numbers
abbrev whole : Number
whole = record {
  Float = ℕ;
  of_int = pos_part;
  mul = λ a b. a * b;
  quot = λ a b. a / b;
  add = λ a b. a + b;
  sub = λ a b. a - b;
  pow10 = λ e. 10 ^ pos_part e;
  lt = ltb;
}

abbrev feed_id : String
feed_id = "abababababababababababababababababababababababababababababababab"

abbrev update : MerkleUpdate
update = record { message = 0 ∷ replicate 32 0xab ++ 9 ∷ []; proof = replicate 20 1 ∷ [] }

-- its guardian set index is 4
abbrev vaa : Bytes
vaa = 1 ∷ 0 ∷ 0 ∷ 0 ∷ 4 ∷ 9 ∷ []

abbrev price : HermesPriceData ℕ
price = record { price = "15"; conf = "1"; expo = pos 0; publish_time = 100 }

abbrev latest : HermesResponse ℕ
latest = record {
  binary = "base64" ∷ [];
  parsed = record { id = feed_id; price = price; ema_price = price } ∷ [];
}

abbrev hermes : Env ℕ ℕ
hermes = record {
  hermes_url = "https://hermes.pyth.network";
  number_of = λ text. 15;
  query = λ parameters. "";
  from_base64 = λ text. wire 0 [] vaa (update ∷ []) ++ 77 ∷ [];
  pda = λ program seeds. ok "pda";
  now = λ n. 200000;
  key_pair = λ n. "account";
  fetch_latest = λ n url. ok (record { is_ok = true; status = 200; json = ok latest });
  fetch_price_feeds = λ n url. ok (record { is_ok = true; status = 200; json = ok [] });
  account_info = λ n address. ok none;
  submit = λ n instructions. ok "signature";
}

abbrev start : Net Instruction
start = record { clock = 0; sent = [] }

is_pyth_price_stale_lem_example :
    is_pyth_price_stale whole hermes (String.◌++◌ "0x" feed_id) 60 start
    ≡ judged whole hermes feed_id 60
        (ok (record { is_ok = true; status = 200; json = ok latest }))
        (record { clock = 1; sent = [] })
is_pyth_price_stale_lem_example =
    is_pyth_price_stale_lem whole hermes feed_id 60 (String.◌++◌ "0x" feed_id) start refl (inr refl)

abbrev accumulator : AccumulatorUpdate
accumulator = record { vaa = vaa; updates_by_feed_id = foldl add_update [] (update ∷ []) }

parsed : parse_accumulator_update (wire 0 [] vaa (update ∷ []) ++ 77 ∷ []) ≡ ok accumulator
parsed =
    parse_accumulator_update-wire 0 [] vaa (update ∷ []) (77 ∷ []) (omega arith) (omega arith)
      (omega arith) ((omega arith, omega arith, (refl, tt)), tt)

abbrev shared : Shared
shared = record { config_address = "pda"; treasury_address = "pda"; guardian_set_address = "pda" }

abbrev prefixed : String
prefixed = "0xabababababababababababababababababababababababababababababababab"
