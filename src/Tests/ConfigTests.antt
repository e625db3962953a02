-- ===== src/Tests/ConfigTests.antt =====
-- Examples of the theorems on the check of the configuration.
use hfmcbot.Prelude.{◌≡◌, ◌↔◌, Bool, true, none}
use hfmcbot.Prelude.Int.{ℤ}
use hfmcbot.Prelude.Text.{Text, bytes}
use hfmcbot.Platform.Sample.{whole_dollars}
use hfmcbot.Config.{Config}
use hfmcbot.Config.Validate.{validate}
use hfmcbot.Config.Validate.Laws.{IsTradable, validate_iff}
use hfmcbot.Tests.{paper_config}

-- the test configuration with its addresses
abbrev bootable : Config ℤ
bootable = record paper_config {
  metrics_addr = bytes "127.0.0.1:9100";
  jupiter_url = bytes "https://jup";
  rpc_url = bytes "https://rpc";
  feed_commitment = bytes "confirmed";
}

-- every key counts as a public key
abbrev any_key : Text → Bool
any_key key = true

validate_iff_example : (validate any_key bootable ≡ none) ↔ IsTradable any_key bootable
validate_iff_example = validate_iff any_key bootable
