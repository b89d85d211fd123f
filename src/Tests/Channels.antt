-- ===== src/Tests/Channels.antt =====
-- The theorems on channels at concrete states.
use rust_zap.Prelude.{String, some, [], ◌∷◌, false}
use rust_zap.Models.{Time}
use rust_zap.Store.{StoreInner, empty}
use rust_zap.Channels.{qr}
use rust_zap.Channels.Pairing.{IsGood, qr-IsGood}
use rust_zap.Tests.Fixtures.{stamp}

abbrev no_time : Time → String
no_time t = "2026-01-01T00:00:00Z"

-- A channel with a code that has expired.
abbrev expired : StoreInner
expired = record empty {
  qr =
      (
        "channel",
        record {
          channel_id = "channel";
          status = "waiting_qr";
          qr_code_text = some "code";
          expires_at = 20;
        },
      )
      ∷ [];
}

qr-IsGood_example :
    let out = qr no_time false "channel" 29 30 31 stamp expired in
    IsGood no_time "channel" 30 out.0 out.1
qr-IsGood_example = qr-IsGood no_time "channel" 30 false 29 31 stamp expired
