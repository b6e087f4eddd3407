-- ===== src/Tools/Tests.antt =====
-- Calls of the example tools at concrete arguments.
use esp32_fx.Tools.Safe.{Allowed, tool_decision-Allowed}
use esp32_fx.Tools.{
  reads_file, writes_battery, denied, invalid_call, decide, whitespace, take_byte, is_text,
  digit_of, four_digits, unicode_char, escaped_char, string_char, string_rest, string_value,
  field_value, assign_path, assign_content, assign_arg, parse_field, parse_fields, parse_body,
  parse_object, parse_args, tool_of, tool_decision,
}
use esp32_fx.Prelude.{◌≡◌, refl, codes, same_text}

read_allowed :
    tool_decision (codes "read_project") (codes "{ \"path\": \"SPEC.md\" }")
    ≡ reads_file (codes "SPEC.md")
unfolding tool_decision tool_of parse_args parse_object parse_body parse_fields parse_field
    assign_arg assign_path assign_content field_value string_value string_rest string_char
    escaped_char unicode_char four_digits digit_of is_text take_byte whitespace decide same_text
read_allowed = refl

write_denied :
    tool_decision (codes "replace_battery") (codes "{\"path\":\"SPEC.md\",\"content\":\"x\"}")
    ≡ denied
unfolding tool_decision tool_of parse_args parse_object parse_body parse_fields parse_field
    assign_arg assign_path assign_content field_value string_value string_rest string_char
    escaped_char unicode_char four_digits digit_of is_text take_byte whitespace decide same_text
write_denied = refl

path_twice :
    tool_decision (codes "read_project") (codes "{\"path\":\"SPEC.md\",\"path\":\"test.sh\"}")
    ≡ invalid_call
unfolding tool_decision tool_of parse_args parse_object parse_body parse_fields parse_field
    assign_arg assign_path assign_content field_value string_value string_rest string_char
    escaped_char unicode_char four_digits digit_of is_text take_byte whitespace decide same_text
path_twice = refl

write_battery :
    tool_decision
      (codes "replace_battery")
      (codes "{\"path\":\"battery.sh\",\"content\":\"a\\u000a\"}")
    ≡ writes_battery (codes "a\n")
unfolding tool_decision tool_of parse_args parse_object parse_body parse_fields parse_field
    assign_arg assign_path assign_content field_value string_value string_rest string_char
    escaped_char unicode_char four_digits digit_of is_text take_byte whitespace decide same_text
write_battery = refl

tool_decision-Allowed_example : Allowed (writes_battery (codes "a\n"))
unfolding tool_decision tool_of parse_args parse_object parse_body parse_fields parse_field
    assign_arg assign_path assign_content field_value string_value string_rest string_char
    escaped_char unicode_char four_digits digit_of is_text take_byte whitespace decide same_text
tool_decision-Allowed_example =
    tool_decision-Allowed (codes "replace_battery")
      (codes "{\"path\":\"battery.sh\",\"content\":\"a\\u000a\"}")
