-- ===== src/Api.antt =====
-- The exported functions of native/share_link_parser.cpp. A null pointer in place of a text is none;
-- the memory of a text, and what it means to free it, are not part of the model.
use entropy_vpn.Base.{[], ◌∷◌, Option, none, some, Bytes, codes}
use entropy_vpn.Base64.{try_decode_subscription_base64_text}
use entropy_vpn.Config.SingBoxConfig.{build_core_config}
use entropy_vpn.Endpoint.Profile.{core_config_profile_json}
use entropy_vpn.Json.Value.{Doubles}
use entropy_vpn.Profile.{Profile, to_json}
use entropy_vpn.Result.{Result, ok, err}
use entropy_vpn.Share.Dispatch.{parse_profile}
use entropy_vpn.Share.Extract.{parse_share_links_json}

-- The returned text and `*error_message`.
pub record Returned : Type 0 where
  pub value : Option Bytes
  pub error_message : Option Bytes

-- An exception becomes the message.
abbrev pub caught : Result Bytes → Returned
caught (ok text) = record { value = some text; error_message = none }
caught (err message) = record { value = none; error_message = some message }

-- The same, where no text is returned for an empty one.
abbrev pub caught_filled : Result Bytes → Returned
caught_filled (ok []) = record { value = none; error_message = none }
caught_filled (ok (c ∷ text)) = caught (ok (c ∷ text))
caught_filled (err message) = caught (err message)

-- An exception is dropped.
abbrev without_error : Returned → Returned
without_error r = record { value = r.value; error_message = none }

abbrev or_empty_object : Option Bytes → Bytes
or_empty_object none = codes "{}"
or_empty_object (some text) = text

parsed_text : Result Profile → Result Bytes
parsed_text (ok p) = ok (to_json p)
parsed_text (err message) = err message

unfoldable pub entropy_parse_share_link : Bytes → Returned
unfolding parsed_text parse_profile
entropy_parse_share_link raw_input = caught (parsed_text (parse_profile raw_input))

unfoldable pub entropy_parse_share_links : Bytes → Returned
unfolding parse_share_links_json
entropy_parse_share_links raw_input = caught (ok (parse_share_links_json raw_input))

unfoldable pub entropy_try_decode_subscription_base64 : Bytes → Returned
unfolding try_decode_subscription_base64_text
entropy_try_decode_subscription_base64 raw_input =
    without_error (caught_filled (try_decode_subscription_base64_text raw_input))

module _ {N : Type 0} (D : Doubles N) where
  unfoldable pub entropy_parse_core_config : Bytes → Option Bytes → Returned
  unfolding core_config_profile_json
  entropy_parse_core_config raw_input options_json =
      caught_filled (core_config_profile_json D raw_input (or_empty_object options_json))

  unfoldable pub entropy_build_core_config : Option Bytes → Option Bytes → Returned
  unfolding build_core_config
  entropy_build_core_config profile_json options_json =
      caught (build_core_config D (or_empty_object profile_json) (or_empty_object options_json))
