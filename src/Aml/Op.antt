-- ===== src/Aml/Op.antt =====
-- crates/nanochrono-core/src/aml.rs: the opcodes, `mod op`. `IF`, `ELSE` and `PACKAGE`, whose words
-- are taken, end in `_op`.
use Prim.Native.Nat.{ℕ}

abbrev pub zero : ℕ
zero = 0x00

abbrev pub one : ℕ
one = 0x01

abbrev pub alias : ℕ
alias = 0x06

abbrev pub name : ℕ
name = 0x08

abbrev pub byte_prefix : ℕ
byte_prefix = 0x0A

abbrev pub word_prefix : ℕ
word_prefix = 0x0B

abbrev pub dword_prefix : ℕ
dword_prefix = 0x0C

abbrev pub string_prefix : ℕ
string_prefix = 0x0D

abbrev pub qword_prefix : ℕ
qword_prefix = 0x0E

abbrev pub scope : ℕ
scope = 0x10

abbrev pub buffer : ℕ
buffer = 0x11

abbrev pub package_op : ℕ
package_op = 0x12

abbrev pub var_package : ℕ
var_package = 0x13

abbrev pub method : ℕ
method = 0x14

abbrev pub external : ℕ
external = 0x15

abbrev pub ext_prefix : ℕ
ext_prefix = 0x5B

abbrev pub local0 : ℕ
local0 = 0x60

abbrev pub local7 : ℕ
local7 = 0x67

abbrev pub arg0 : ℕ
arg0 = 0x68

abbrev pub arg6 : ℕ
arg6 = 0x6E

abbrev pub store : ℕ
store = 0x70

abbrev pub add : ℕ
add = 0x72

abbrev pub subtract : ℕ
subtract = 0x74

abbrev pub increment : ℕ
increment = 0x75

abbrev pub decrement : ℕ
decrement = 0x76

abbrev pub shift_left : ℕ
shift_left = 0x79

abbrev pub shift_right : ℕ
shift_right = 0x7A

abbrev pub and : ℕ
and = 0x7B

abbrev pub nand : ℕ
nand = 0x7C

abbrev pub or : ℕ
or = 0x7D

abbrev pub nor : ℕ
nor = 0x7E

abbrev pub xor : ℕ
xor = 0x7F

abbrev pub multiply : ℕ
multiply = 0x77

abbrev pub concat : ℕ
concat = 0x73

abbrev pub find_set_left_bit : ℕ
find_set_left_bit = 0x81

abbrev pub find_set_right_bit : ℕ
find_set_right_bit = 0x82

abbrev pub ref_of : ℕ
ref_of = 0x71

abbrev pub to_hex_string : ℕ
to_hex_string = 0x98

abbrev pub to_decimal_string : ℕ
to_decimal_string = 0x97

abbrev pub size_of : ℕ
size_of = 0x87

abbrev pub create_dword_field : ℕ
create_dword_field = 0x8A

abbrev pub create_word_field : ℕ
create_word_field = 0x8B

abbrev pub create_byte_field : ℕ
create_byte_field = 0x8C

abbrev pub create_bit_field : ℕ
create_bit_field = 0x8D

abbrev pub create_qword_field : ℕ
create_qword_field = 0x8F

abbrev pub index : ℕ
index = 0x88

abbrev pub deref_of : ℕ
deref_of = 0x83

abbrev pub land : ℕ
land = 0x90

abbrev pub lor : ℕ
lor = 0x91

abbrev pub lnot : ℕ
lnot = 0x92

abbrev pub lequal : ℕ
lequal = 0x93

abbrev pub lgreater : ℕ
lgreater = 0x94

abbrev pub lless : ℕ
lless = 0x95

abbrev pub to_buffer : ℕ
to_buffer = 0x96

abbrev pub to_integer : ℕ
to_integer = 0x99

abbrev pub if_op : ℕ
if_op = 0xA0

abbrev pub else_op : ℕ
else_op = 0xA1

abbrev pub while : ℕ
while = 0xA2

abbrev pub noop : ℕ
noop = 0xA3

abbrev pub return : ℕ
return = 0xA4

abbrev pub break : ℕ
break = 0xA5

abbrev pub ones : ℕ
ones = 0xFF

abbrev pub ext_mutex : ℕ
ext_mutex = 0x01

abbrev pub ext_event : ℕ
ext_event = 0x02

abbrev pub ext_op_region : ℕ
ext_op_region = 0x80

abbrev pub ext_field : ℕ
ext_field = 0x81

abbrev pub ext_device : ℕ
ext_device = 0x82

abbrev pub ext_processor : ℕ
ext_processor = 0x83

abbrev pub ext_power_res : ℕ
ext_power_res = 0x84

abbrev pub ext_thermal_zone : ℕ
ext_thermal_zone = 0x85

abbrev pub ext_index_field : ℕ
ext_index_field = 0x86

abbrev pub ext_bank_field : ℕ
ext_bank_field = 0x87

abbrev pub ext_create_field : ℕ
ext_create_field = 0x13

abbrev pub notify : ℕ
notify = 0x86

abbrev pub continue : ℕ
continue = 0x9F

abbrev pub ext_load : ℕ
ext_load = 0x20

abbrev pub ext_stall : ℕ
ext_stall = 0x21

abbrev pub ext_sleep : ℕ
ext_sleep = 0x22

abbrev pub ext_signal : ℕ
ext_signal = 0x24

abbrev pub ext_reset : ℕ
ext_reset = 0x26

abbrev pub ext_release : ℕ
ext_release = 0x27

abbrev pub ext_unload : ℕ
ext_unload = 0x2A

abbrev pub ext_fatal : ℕ
ext_fatal = 0x32

abbrev pub ext_cond_ref_of : ℕ
ext_cond_ref_of = 0x12

abbrev pub ext_load_table : ℕ
ext_load_table = 0x1F

abbrev pub ext_acquire : ℕ
ext_acquire = 0x23

abbrev pub ext_wait : ℕ
ext_wait = 0x25

abbrev pub ext_from_bcd : ℕ
ext_from_bcd = 0x28

abbrev pub ext_to_bcd : ℕ
ext_to_bcd = 0x29

abbrev pub ext_revision : ℕ
ext_revision = 0x30

abbrev pub ext_debug : ℕ
ext_debug = 0x31

abbrev pub ext_timer : ℕ
ext_timer = 0x33
