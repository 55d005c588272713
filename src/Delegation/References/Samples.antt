-- ===== src/Delegation/References/Samples.antt =====
-- Tests of the Agent references, and their round trip at a concrete one.
use moduagent.Base.{◌≡◌, refl, true, false, ok, is_alnum, matches_identifier}
use moduagent.Delegation.Models.{AgentRef, str}
use moduagent.Delegation.References.Version.{
  is_agent_id, is_version, is_release, is_numeral, is_label, is_label_char, has_leading_zero,
  split_on, partition,
}
use moduagent.Delegation.References.Parsing.{is_agent_ref, parse, parse-str}

abbrev writer : AgentRef
writer = record { agent_id = "report-writer"; version = "1.20.0-rc.1+b7" }

leading_zero : is_version "1.02.0" ≡ false
unfolding is_version is_release is_numeral is_label is_label_char has_leading_zero split_on
    partition
leading_zero = refl

short_version : is_version "1.2" ≡ false
unfolding is_version is_release is_numeral is_label is_label_char has_leading_zero split_on
    partition
short_version = refl

writer-valid : is_agent_ref writer ≡ true
unfolding is_agent_ref is_agent_id is_version is_release is_numeral is_label is_label_char
    has_leading_zero split_on partition is_alnum matches_identifier
writer-valid = refl

parse-str_example : parse (str writer) ≡ ok writer
parse-str_example = parse-str writer writer-valid
