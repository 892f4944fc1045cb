-- ===== src/Validate/Json.antt =====
-- `validate_verification` of src/lib.rs: an explicit stack walks the expected state of a
-- `target_state` policy. The rounds are bounded by the limit on nodes; with no round left the next
-- node would exceed it, which is the error of the limit.
use praefectus.Prelude.{
  ℕ, zero, suc, ◌+◌, ◌-◌, ◌^◌, min, ◌||◌, len, List, [], ◌∷◌, ltb, if◌then◌else◌,
}
use praefectus.Json.{Value, Values, Fields, number, string, array, object, nil, cons, end, field}
use praefectus.Protocol.{Result, ok, err, invalid_request, VerificationPolicy, target_state}

abbrev pub max_nodes : ℕ
max_nodes = 4096

abbrev pub max_depth : ℕ
max_depth = 32

abbrev pub max_bytes : ℕ
max_bytes = 65536

-- `usize::saturating_add`.
abbrev pub sat_add : ℕ → ℕ → ℕ
sat_add a b = min (a + b) (2 ^ 64 - 1)

abbrev pub Stack : Type 0
Stack = List (Value × ℕ)

-- `Vec::extend`: the last value becomes the top.
abbrev pub push_values : ℕ → Values → Stack → Stack
push_values d nil stack = stack
push_values d (cons v vs) stack = push_values d vs ((v, d) ∷ stack)

abbrev pub push_fields : ℕ → Fields → Stack → Stack
push_fields d end stack = stack
push_fields d (field k v fs) stack = push_fields d fs ((v, d) ∷ stack)

abbrev pub add_keys : Fields → ℕ → ℕ
add_keys end bytes = bytes
add_keys (field k v fs) bytes = add_keys fs (sat_add bytes (len k))

abbrev pub children : Value → ℕ → Stack → Stack
children (array vs) depth stack = push_values (sat_add depth 1) vs stack
children (object fs) depth stack = push_fields (sat_add depth 1) fs stack
children _ depth stack = stack

abbrev pub add_bytes : Value → ℕ → ℕ
add_bytes (number s) bytes = sat_add bytes (len s)
add_bytes (string s) bytes = sat_add bytes (len s)
add_bytes (object fs) bytes = add_keys fs bytes
add_bytes _ bytes = bytes

abbrev pub too_large : Result (Unit {0})
too_large = err (invalid_request "verification state is too large")

unfoldable pub walk : ℕ → Stack → ℕ → ℕ → Result (Unit {0})
walk rounds [] nodes bytes = ok tt
walk zero (top ∷ stack) nodes bytes = too_large
walk (suc rounds) ((value, depth) ∷ stack) nodes bytes =
    let rest = walk rounds (children value depth stack) (sat_add nodes 1) (add_bytes value bytes) in
    if ltb max_nodes (sat_add nodes 1) || ltb max_depth depth
    then too_large
    else if ltb max_bytes (add_bytes value bytes)
    then too_large
    else rest

unfoldable pub validate_verification : VerificationPolicy → Result (Unit {0})
unfolding walk
validate_verification (target_state expected) = walk (max_nodes + 1) ((expected, 0) ∷ []) 0 0
validate_verification _ = ok tt
