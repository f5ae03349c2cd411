-- ===== src/Revision/Rollback/Tests.antt =====
-- Rollback events at a concrete event, with stand-ins for the libraries.
use boot_optim_distribution.Base.{
  int_eq, length, take, Bytes, codes, bytes_beq, bytes_eq, after_prefix, contains_byte, is_digit,
  is_lower, is_upper, ◌==◌, nat_eq, bool_eq, pos, ok, ◌≡◌, refl, true, some, ◌++◌,
}
use boot_optim_distribution.Revision.Types.{Signature, RollbackStatement, VerifiedRollbackEvent}
use boot_optim_distribution.Revision.Ids.{
  is_sha256, valid_profile_id, valid_entry_id_range, valid_revision_id, valid_channel, is_hex,
  is_alphanum, is_lower_alphanum, lower_tail, lower_word,
}
use boot_optim_distribution.Revision.Validate.{validate_signature}
use boot_optim_distribution.Revision.Unicode.{scan_byte, scan, validate_json_string_unicode}
use boot_optim_distribution.Revision.Rollback.{
  Wire, checked, decoded, refuse, statement_ids, canonicalize_json, signs, check_statement,
  verify_event, parse_and_verify_rollback_event,
}
use boot_optim_distribution.Revision.Rollback.Verified.{
  IsSigned, parse_and_verify_rollback_event-IsSigned,
}

abbrev key : Bytes
key = codes "0123456789abcdef0123456789abcdef"

abbrev statement : RollbackStatement
statement = record {
  profile_id = codes "profile_abc";
  channel = codes "stable";
  from_revision_id = codes "rev_fedcba9876543210";
  from_sequence = pos 5;
  to_revision_id = codes "rev_0123456789abcdef";
  reason = codes "crashes";
  issued_at = codes "t";
}

abbrev signature : Signature
signature = record { key_id = codes "k"; algorithm = codes "Ed25519"; value = key ++ key }

-- The stand-ins: a hash is two keys, a signature begins with its key.
abbrev wire : Wire
wire = record {
  utf8_valid = λ raw. true;
  rune_size = λ raw. 1;
  transform = λ raw. some raw;
  decode_event = λ raw. some (record {
    event_id = codes "e";
    statement_sha256 = key ++ key;
    statement = raw;
    signature = signature;
  });
  decode_statement = λ raw. some statement;
  statement_shape = λ raw. true;
  is_time = λ raw. true;
  sha256_hex = λ raw. key ++ key;
  base64_decode = λ raw. some raw;
  ed25519_verify = λ public text sig. take 32 sig == public;
}

abbrev event : VerifiedRollbackEvent
event = record {
  event_id = codes "e";
  digest = key ++ key;
  statement = statement;
  signature = signature;
  canonical = codes "{}";
}

accepted : parse_and_verify_rollback_event wire (codes "{}") key ≡ ok event
unfolding parse_and_verify_rollback_event verify_event check_statement statement_ids signs checked
    decoded refuse canonicalize_json validate_json_string_unicode scan scan_byte validate_signature
    valid_profile_id valid_channel valid_revision_id is_sha256 valid_entry_id_range is_hex
    is_alphanum lower_word lower_tail is_lower_alphanum is_digit is_lower is_upper after_prefix
    bytes_beq take contains_byte
accepted = refl

parse_and_verify_rollback_event-IsSigned_example : IsSigned wire key event × (length key ≡ 32)
parse_and_verify_rollback_event-IsSigned_example =
    parse_and_verify_rollback_event-IsSigned wire (codes "{}") key event accepted
