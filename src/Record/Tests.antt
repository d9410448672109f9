-- ===== src/Record/Tests.antt =====
-- A scope id of internal/record with a byte that is escaped.
use lawang.Prelude.{◌≡◌, Text, text, ok, refl, inl, inr, arith}
use lawang.Record.Scope.{Scope, scope_id, parse_scope_id}
use lawang.Record.Scope.RoundTrip.{IsBytes, parse_scope_id-scope_id}
use lawang.Record.Scope.Canonical.{scope_id-parse_scope_id}

abbrev container : Text
container = text "a:b"

abbrev written : Text
written = text "graph:channel:a%3Ab"

abbrev scope : Scope
scope = record {
  provider = text "graph";
  container_kind = text "channel";
  container_id = container;
}

written_run : scope_id (text "graph") (text "channel") container ≡ ok written
unfolding scope_id lawang.Record.Names.valid_provider_key lawang.Record.Names.valid_name
    lawang.Record.Names.is_lower lawang.Record.Names.name_char lawang.Record.Scope.escape_all
    lawang.Record.Scope.unreserved lawang.Record.Scope.escape lawang.Record.Scope.control
    lawang.Record.Scope.hex_digit
written_run = refl

read_run : parse_scope_id written ≡ ok scope
unfolding parse_scope_id lawang.Record.Scope.check_scope_id lawang.Record.Scope.check_provider
    lawang.Record.Scope.cut_colon lawang.Record.Names.valid_provider_key
    lawang.Record.Names.valid_name lawang.Record.Names.is_lower lawang.Record.Names.name_char
    lawang.Record.Scope.check_kind lawang.Record.Scope.check_container
    lawang.Record.Scope.check_escapes lawang.Record.Scope.unreserved lawang.Record.Scope.good_escape
    lawang.Record.Scope.is_upper_hex lawang.Record.Scope.unhex lawang.Record.Scope.control
    lawang.Record.Scope.unescape
read_run = refl

container-IsBytes : IsBytes container
container-IsBytes b (inl e) = rw e (omega arith)
container-IsBytes b (inr (inl e)) = rw e (omega arith)
container-IsBytes b (inr (inr (inl e))) = rw e (omega arith)
container-IsBytes b (inr (inr (inr m))) = absurd m

parse_scope_id-scope_id_example : parse_scope_id written ≡ ok scope
parse_scope_id-scope_id_example =
    parse_scope_id-scope_id (text "graph") (text "channel") container written container-IsBytes
      written_run

scope_id-parse_scope_id_example :
    scope_id scope.provider scope.container_kind scope.container_id ≡ ok written
scope_id-parse_scope_id_example = scope_id-parse_scope_id written scope read_run
