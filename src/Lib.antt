-- ===== src/Lib.antt =====
-- The timing core of NanoChronometer, the Rust crate crates/nanochrono-core, and of its bare-metal
-- crate the texts, the framebuffer, the loader's information and the keyboards and pointers:
-- definitions that follow the source, and theorems about them.
--
-- The parts and how they meet. redundancy.rs keeps a 64-bit word under a Hamming(72,64) code with two
-- replicas. context.rs keeps a calibrated counter whose rate and origin are such words. stopwatch.rs
-- keeps its total, its start and its laps as such words and converts counter units with a
-- Chronometer. format.rs prints the readings and the civil dates. ntp.rs judges a time server's
-- reply. backend.rs names and chooses the instruction family a measurement is attributed to.
-- hid_report.rs reads the report descriptors and reports of keyboards and pointers. aml.rs reads the
-- firmware's bytecode: it walks the namespace for devices, finds their members, runs their methods on
-- a budget and decodes the resource templates those give. In the bare-metal crate
-- crates/nanochrono-baremetal, text.rs writes durations and sizes into texts of a fixed size,
-- multiboot.rs finds the screen, the size of memory and the firmware's root tables in what the loader
-- left, framebuffer.rs draws through a back buffer and copies out the rectangle that changed, and
-- input.rs reads keys and motions from the 8042, from USB and from an I2C touchpad, whose reports
-- hid_report.rs decodes.
--
-- The files and the code that they model:
--   Redundancy        crates/nanochrono-core/src/redundancy.rs: Integrity (the outcomes, the counters
--                     and `record`, here record_outcome), Code (data_position, build_parity_masks,
--                     hamming_parities, check_bits, decode), Protected (Replica, Protected and its
--                     methods under their own names). A method on `&mut self` returns the new word;
--                     the four process-wide counters are the record IntegrityStats, passed along.
--                     Code/Linear, Code/Errors, Code/Flips, Protected/Repair, Protected/Flips and
--                     Protected/Tolerance are proofs.
--   Chronometer       crates/nanochrono-core/src/context.rs: the methods of Chronometer under their
--                     own names. Counter and clock readings are arguments, the polls of a loop the
--                     list of the readings to come, f64 a parameter type with its operations.
--                     Convert, Elapsed and Calibrate are proofs.
--   Stopwatch         crates/nanochrono-core/src/stopwatch.rs: the methods of Stopwatch under their
--                     own names. Plain is the specification, a stopwatch over bare numbers; Refine
--                     and Operations relate the two, Strikes says what damage is, Behaviour has the
--                     runs of operations and strikes.
--   Format            crates/nanochrono-core/src/format.rs. Calendar is an independent description
--                     of the Gregorian calendar; Elapsed and Instants read the texts back; Civil
--                     holds the dates against the calendar.
--   Ntp               crates/nanochrono-core/src/ntp.rs: finish, ntp_timestamp_to_unix_ns and the
--                     uncertainty. Offset and Reply are proofs.
--   Backend           crates/nanochrono-core/src/backend.rs, and the feature record of cpu.rs. Choice
--                     has the proofs.
--   HidReport         crates/nanochrono-core/src/hid_report.rs: Field, the layouts and their decode
--                     methods; HidReport/State and HidReport/Descriptor are the descriptor
--                     parser. Values, Finds, Slots, Items and Digitizers are proofs.
--   Aml               crates/nanochrono-core/src/aml.rs. Op has the opcodes; Names is Span and Path
--                     (here NamePath); Cursor the methods of Cursor, whose position is passed along
--                     and kept where a read fails; Data is parse_data, Skip skip_term_arg and
--                     method_arity, Statements skip_object and skip_statement, Devices describe and
--                     name_value, Walk the namespace walk with its visitor as a function on a state,
--                     Members find_member, Interpreter eval and store, Methods run and statement,
--                     Ids HardwareId, Resources the template iterator, Buffers
--                     for_each_declared_buffer and declared_resources, Touchpad gpio_communities and
--                     the find_i2c_hid family. A function that answers
--                     false where it fails is a read that fails. Names/Printed, Cursor/Within,
--                     Cursor/Little, Ids/Eisa, Resources/Framing, Resources/Regions and the modules
--                     Bounds, Sound, Scopes, Leaves, Noted, Agree and Ends are proofs.
--   Text              crates/nanochrono-baremetal/src/text.rs: Text and its methods, a method giving the
--                     new text, and duration, bytes and frequency. Written says what a text holds,
--                     Figures compares the duration with the one of Format.
--   Framebuffer       crates/nanochrono-baremetal/src/framebuffer.rs: the methods of Framebuffer under
--                     their own names, except make (new), set_pixel (set) and clear_all (clear). The
--                     statics are the record Surface, passed along: the back buffer by its index, the
--                     video memory by the offset from the base, and the damage rectangle. Places,
--                     Bytes, Rows, Painted, Drawn, Stored, Pixels and Damage are proofs; IsScreen
--                     says that the rows lie apart within 4 GiB, in two to four bytes a pixel.
--   Multiboot         crates/nanochrono-baremetal/src/multiboot.rs: framebuffer, memory, acpi_rsdp
--                     and parse_rsdp. Memory is a function of the address. The loop over the tags,
--                     which the source writes out three times, is walk with the body of each reader
--                     as a function (framebuffer_tag, memory_tag, rsdp_tag). Tags, Finds, Tables and
--                     Installed are proofs.
--   Input             crates/nanochrono-baremetal/src/input.rs: the scancode and packet decoding on
--                     the record Ps2, the fields of Input that belong to the 8042; Input/Poll has Input
--                     and UsbInput with their polls. What a poll reads of ports and controllers is
--                     its argument, the record Answers. Feed, Codes, Keys, Movements, Packets, Held, Turns, Bounds
--                     and Recent are proofs.
--   Common            shared names: tests on numbers, lists, u64 arithmetic, bit operations with
--                     their laws, decimal text, signed integers, counted loops.
-- Each Runs file holds tests and the theorems applied at concrete inputs.
--
-- Numbers. A machine word is a natural number, and every operation that wraps, saturates or is cut to
-- a width is written out; usize is 64 bits wide, and overflow wraps as in a release build.
--
-- Loops and fuel. The loops over bits, rounds and list elements are recursion on what is left of
-- them. `decimal` prints at most 20 digits, enough for a u64, and `scratch` has room for 20. The
-- walk over a report descriptor has the descriptor's length as fuel, which walk_ends shows to be
-- enough. A reader of bytecode has one more than the table's length as fuel, since every step
-- consumes a byte, and a method that runs twice its budget and one, since every second step spends
-- from it; both are shown to be enough. The walk over the loader's tags has their total size as
-- fuel, since every tag has eight bytes, and the entries of a map the size of their tag; both are
-- shown to be enough. The polling loops take the list of the readings to come and give `none` where
-- that list ends before the loop does.
--
-- Not modelled: what reads hardware or the operating system (its answers are arguments), the
-- floating point conversions and texts (f64 views, format_bytes, drift in parts per million), the
-- sockets of ntp.rs, the bring-up of the 8042 in input.rs, kernel_footprint of multiboot.rs, the
-- fields backend, route and server, and the summary text of the counters.
pub mod Common
pub mod Redundancy
pub mod Chronometer
pub mod Stopwatch
pub mod Format
pub mod Backend
pub mod Ntp
pub mod HidReport
pub mod Aml
pub mod Text
pub mod Input
pub mod Multiboot
pub mod Framebuffer
