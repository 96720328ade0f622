-- ===== src/Lib.antt =====
-- The FAST protocol dissector: its decoder, its encoder, its dictionaries, and the dissection of a
-- message along a template.
--
-- A template is a tree of field types. The dissector (dissect.c) walks along it with a position in
-- the packet, reads each field with the primitive readers (basic-dissect.c), which count and decode
-- stop bit encoded bytes (decode.c), and keeps the values of earlier fields in dictionaries
-- (dictionaries.c). The templates come from an XML file (parse-template.c). The test client
-- (util/client/client.c) writes packets with the encoder (util/client/encode.c), the server
-- (util/server/server.c) prints what it receives, and the comparison tool (util/rwcompare) compares
-- the display of a packet with the plan that was sent.
--
-- The files:
--   Base          shared types, Boolean tests, lists, bits and two's complement
--   Decode        decode.c
--   Encode        util/client/encode.c
--   Client        util/client/client.c: the message that the options build, and its encoding
--   Field         basic-field.h and basic-field.c: values, and in Conversion their text
--   Position      basic-dissect.c, basic-dissect.h
--   Template      template.h and template.c; Table is create_templates_table
--   Parser        parse-template.c: Xml (what it asks of a node), Operator (operators and attributes),
--                 Tree (the fields), Templates (the file); the rest are proofs
--   Dictionaries  dictionaries.c
--   Dissect       dissect.c: Node (the tree that is built), Operators (dissect_int_op, dissect_copy,
--                 dissect_default), Optional (dissect_optional), Numbers, Text (strings and byte
--                 vectors), Tree (dissect_value, groups, sequences, the walk), Message
--   Plugin        packet-fast.c: the messages of a packet; Text has the texts of a decimal and of a
--                 field's attributes, and Display the rows that are shown
--   Compare       util/rwcompare: Plan (equiv_plan_files), Writer (xmlPlanWriter.c), Pdml (pdmlParser.c),
--                 Options (the arguments of main), Command (run-exe.c), Flow (the steps of main)
--   Server        util/server/server.c: the texts that it prints
--   Runs          concrete packets, templates and tables
-- A definition has the name of its function in the source; the parts into which a long function is
-- cut say which part they are.
--
-- How the state is modelled. Memory is a function from addresses to bytes, and a pointer into the
-- packet is an address, so that a read past the packet has a value and can be seen. Unsigned
-- integers are natural numbers with `% 2 ^ w` where the code wraps; a signed integer is the pattern
-- of its bits, and `signed w x` is the integer that it stands for. A FieldValue is the union by its
-- two words; a buffer that the program allocates is the list of its bytes. Functions that change a
-- position or a field return the new one. What the C code leaves uninitialized is an argument
-- (`junk`, `fresh`). `fault` marks behaviour that C leaves undefined, such as
-- a read through a null pointer; the loop over the messages of a packet ends there.
--
-- Bounds and fuel. The loops of decode.c recur on the bytes that are left, and those of dissect.c on
-- the template and on the number of elements. The loop over the messages of a packet has as much
-- fuel as the packet has bytes, and each of its rounds takes a byte or is the last. The loops of
-- the encoder recur on the free bytes in front of the buffer's end, of which the code has nine;
-- `none` is a write outside the buffer. `sprintf` of a 64-bit number writes at most 20 digits.
--
-- Parameters. The hash tables of GLib are a record of operations with their documented behaviour;
-- the equality of addresses is an argument, and so is the table of templates of the dissector,
-- which sees the dictionaries through an interface of a look-up and a store; the plug-in fills it
-- with the dictionaries of a conversation (Plugin.conversation_store). The XML library gives
-- a tree of elements and a comparison of names, and the writer of plan files is an interface whose calls
-- may fail; a step of the comparison tool has a result that an argument gives. The readers of numbers are those of GLib and of the
-- C library.
--
-- Not modelled: the plug-in's registration and preferences, and the calls of Wireshark that
-- take the rows (packet-fast.c), logging, the release of memory, the client's sockets and help, the server's
-- sockets and processes, the processes and threads that the comparison tool starts, and the
-- generator of tests.
pub mod Base
pub mod Decode
pub mod Encode
pub mod Client
pub mod Field
pub mod Position
pub mod Template
pub mod Parser
pub mod Dictionaries
pub mod Dissect
pub mod Plugin
pub mod Compare
pub mod Server
pub mod Runs
