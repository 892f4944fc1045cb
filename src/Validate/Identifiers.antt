-- ===== src/Validate/Identifiers.antt =====
-- `valid_identifier`, `is_hash`, `semantic_hash`, `valid_protocol_snapshot_id` and
-- `target_provenance_is_valid` of src/lib.rs.
use praefectus.Prelude.{
  ℕ, Bool, true, not, ◌&&◌, ◌||◌, String, len, codes, all, leb, ltb, ◌==◌, str_eq, is_ascii_digit,
  is_ascii_hexdigit, is_ascii_alphanumeric, is_control,
}
use praefectus.Protocol.{TargetRef, coordinates, element, untargeted}

abbrev identifier_byte : ℕ → Bool
identifier_byte c = is_ascii_alphanumeric c || (c == b'-' || (c == b'_' || c == b':'))

unfoldable pub valid_identifier : String → Bool
valid_identifier value =
    not (str_eq value "") && (leb (len value) 256 && all identifier_byte (codes value))

unfoldable pub is_hash : String → Bool
is_hash value = len value == 64 && all is_ascii_hexdigit (codes value)

abbrev lower_hex : ℕ → Bool
lower_hex c = is_ascii_digit c || (leb b'a' c && leb c b'f')

unfoldable pub semantic_hash : String → Bool
semantic_hash value = len value == 64 && all lower_hex (codes value)

unfoldable pub valid_protocol_snapshot_id : String → Bool
valid_protocol_snapshot_id value =
    not (str_eq value "") && (leb (len value) 256 && all (λ c. not (is_control c)) (codes value))

unfoldable pub target_provenance_is_valid : TargetRef → Bool
unfolding semantic_hash
target_provenance_is_valid (coordinates c) =
    not (str_eq c.snapshot_id "")
    && (leb (len c.snapshot_id) 256
        && (not (str_eq c.display_id "")
            && (leb (len c.display_id) 256
                && (len c.display_geometry_hash == 64 && len c.snapshot_content_hash == 64))))
target_provenance_is_valid (element t) =
    semantic_hash t.observation_id
    && (ltb 0 t.generation
        && (semantic_hash t.provenance_hash
            && (semantic_hash t.element_id && semantic_hash t.fingerprint_hash)))
target_provenance_is_valid untargeted = true
