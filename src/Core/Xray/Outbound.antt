-- ===== src/Core/Xray/Outbound.antt =====
-- core/xray/outbound.go: the outbound of a node.
use v2b_z.Prelude.{Option, none, some, Result, ok, err, is_empty, if◌then◌else◌}
use v2b_z.Prelude.Text.{Text, text}
use v2b_z.Conf.Options.{Options}
use v2b_z.Conf.Xray.{XrayOptions}
use v2b_z.Core.Types.{Failure, message, panicked}

pub record Outbound : Type 0 where
  pub protocol : Text
  pub tag : Text
  pub send_through : Option Text
  pub domain_strategy : Text

unfoldable pub domain_strategy : XrayOptions → Text
domain_strategy o =
    if o.enable_dns then if is_empty o.dns_type then text "UseIP" else o.dns_type else text "Asis"

-- `build` is Build; a nil pointer to the options of xray panics.
unfoldable pub build_outbound :
    {H : Type 0}
    → (Outbound → Result Text H)
    → Options
    → Option XrayOptions
    → Text
    → Result Failure H
unfolding domain_strategy
build_outbound build config none tag = err panicked
build_outbound build config (some o) tag =
    elim (build (record {
      protocol = text "freedom";
      tag = tag;
      send_through = if is_empty config.send_ip then none else some config.send_ip;
      domain_strategy = domain_strategy o;
    })) [ err e ↦ err (message e) | ok h ↦ ok h ]
