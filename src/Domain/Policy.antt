-- ===== src/Domain/Policy.antt =====
-- PublicationPolicy of crates/domain/src/lib.rs: what may be published.
use trunk_scope.Common.{
  Bool, false, ◌&&◌, Option, none, some, [], ltb, ◌==◌, if◌then◌else◌, any, is_empty,
}
use trunk_scope.Domain.{
  Uuid, EncryptionState, is_clear, PublicationPolicy, ValidationError,
  public_feed_requires_allowlist, public_delay_too_large,
}

unfoldable pub default_policy : PublicationPolicy
default_policy = record {
  enabled = false;
  delay_seconds = 120;
  allowed_talkgroups = [];
  expose_transcripts = false;
  expose_radio_ids = false;
  expose_precise_locations = false;
}

-- `Ok(())` is `none`.
unfoldable pub validate : PublicationPolicy → Option ValidationError
validate p =
    if p.enabled && is_empty p.allowed_talkgroups
    then some public_feed_requires_allowlist
    else if ltb 86400 p.delay_seconds
    then some public_delay_too_large
    else none

unfoldable pub permits : PublicationPolicy → Uuid → EncryptionState → Bool
permits p talkgroup_id encryption =
    p.enabled && is_clear encryption && any (λ g. g == talkgroup_id) p.allowed_talkgroups
