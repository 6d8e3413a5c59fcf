-- ===== src/Lib.antt =====
-- A model of galaxie, a client for the Thousand Parsec protocol.
--
-- The program talks to a game server. server.c owns the connection: it cuts what comes in into
-- packets, runs the callbacks that wait for an answer, and raises an event under the packet's
-- name; what goes out is built by server_send and its variants. tpe_event.c keeps the events by
-- name on top of Ecore's numbered events. tpe_util.c takes the body of a packet apart as a format
-- string says. tpe_sequence.c asks for the lists of ids that the server numbers, and for those of
-- the objects on them that have changed. tpe_board.c keeps the message boards: their slots, what
-- is unread, and the requests for new messages. tpe_comm.c opens a connection and logs in, as a
-- chain of callbacks. objects.c keeps the objects of the game, tpe_orders.c the orders that
-- objects can have and have, tpe_resources.c and tpe_ship.c the resources and the designs that a
-- server describes. galaxie.c reads the options and starts the connection. The computer players
-- (ai_smith.c, ai_jones.c) wait for events about objects without orders and answer with requests.
-- tpe_gui.c shows the objects on a map, the boards as icons, and messages in boxes; gui/star.c is
-- the widget of a star.
--
-- Files:
--   Prelude   shared names, Boolean tests and lists over the native numbers
--   Run       how a C function ends: a value, exit, a failed assertion, undefined behaviour
--   Wire      server.h (ntohll), and 32 and 64 bit words as bytes
--   Server    server.c: Names the table msgnames and its two searches, Frames server_receive and
--             the assertions of server_handle_packet, Send server_connect, server_send,
--             server_cb_add and server_send_strings, Format format_server and server_send_format,
--             Dispatch the callbacks and the event of server_handle_packet
--   Parse     tpe_util.c: tpe_util_string_extract and tpe_util_parse_packet
--   Event     tpe_event.c
--   Sequence  tpe_sequence.c: tpe_sequence_handle_oids and tpe_sequence_start, Register
--             tpe_sequence_init and tpe_sequence_register
--   Board     tpe_board.c: the list of boards and tpe_board_msg_board_receive, Slots the rest of
--             tpe_board_msg_message_receive behind its parse and tpe_board_board_message_read, Turns
--             the searches
--   Comm      tpe_comm.c: the callbacks of a connection, Login the steps of one (with the end of
--             server_con_event_server_add of server.c), Notices the other handlers
--   Orders    tpe_orders.c: the descriptions of orders, Fragments tpe_orders_object_update, Clear
--             tpe_orders_object_clear, Insert the orders to move, colonise and build, Args
--             tpe_order_parse_args, Args/Write the sizes and writers of arguments and
--             tpe_orders_order_update, Receive tpe_orders_msg_order, Probe tpe_orders_object_probe
--   Objects   objects.c: the table and its searches, Check tpe_obj_list_begin, Family siblings,
--             children and parents, Receive tpe_obj_data_receive, Children
--             tpe_obj_update_children
--   Resources tpe_resources.c
--   Ships     tpe_ship.c
--   Decimal   the numbers that snprintf writes for %d
--   Structs   tpe_util.c: parse_block with its extract_ functions, Tables the tables that it is
--             given (tpe_board.c, objects.c, object_param.c), Messages the handlers that call it
--   Players   tpe_util_dist_calc2 of tpe_util.c, Closest ai_util.c and the loop of the search for a
--             planet, Smith ai_smith.c (Build its answer to a probe, Fleet its fleets), Jones
--             ai_jones.c
--   Options   galaxie.c: the table of options, Url parse_url, Parse the other handlers and
--             parse_args, Main main, Command a command line and what it means, in its own words
--   Star      gui/star.c
--   Gui       tpe_gui.c: Map the keys, the size and the places on the map, Boards the icons of
--             boards and the boxes of messages, Summary star_summary, Visible the list of visible
--             objects, Colours star_update
--
-- State is passed explicitly: a record has the fields of the C struct that the code reads and
-- writes, less pointers back to the program. A word is its bit pattern, a natural number below 2
-- ^ 32 or 2 ^ 64, and sums wrap where C's do. A sum of ints that overflows, which C leaves
-- undefined, is undefined here for the position of a sequence, the number of an object's orders
-- and the number of Smith's ships; the counts of a board are bounded by its slots. Bytes are
-- numbers, and a pointer into a buffer is the list of the bytes from there on. Memory of malloc
-- is a parameter, a function of the size. What ends the program or leaves C undefined is a value
-- of Run, so that a theorem that gives `ok` excludes it.
--
-- The loop of server_receive runs on fuel, one more than the number of bytes it starts from; a
-- round that goes on takes at least 17 bytes. The loop over the callbacks of a packet runs on
-- fuel that its caller gives, as a callback may add to the list that the loop runs over; one more
-- than the number of callbacks is enough if none of them sends a request, and two more than the
-- number of callbacks that are left and new if one does. tpe_obj_list_begin draws random numbers
-- until one is not 0, with fuel for the draws. The digits of an int run on fuel 10, as it has no
-- more than ten digits. Every other loop is by recursion on a list or on a count.
--
-- Parameters: Eina's list append (tpe_event.c and tpe_sequence.c rely on it to put the element
-- last, tpe_board.c on the list that its own pointer leads to afterwards), Ecore's numbering of
-- event types and of timers, Eina's hash table, malloc, calloc, rand, the host's ntohl, regcomp,
-- regexec, strtol and strcasecmp, the distance that hypotl and llrintl give, BUFSIZ, and whether
-- the host reads the int 0 as NULL where a char * is wanted (tpe_comm.c). strdup, talloc_strndup
-- and talloc_realloc are taken to find memory.
--
-- Not modelled: tpe_util_parse_array of tpe_util.c, which only its tests call, the text of
-- orders, what is printed, the registration of handlers, browser.c, which asks one server for its
-- games and prints them, drawing, and the windows of gui_window.c, gui_list.c, tpe_gui_orders.c
-- and ewl/gewl_object.c, whose state lives in Evas, Edje and EWL. The windows of an object, which
-- set its gui field too, are no events of Gui/Visible. A count of children is taken not to be
-- negative.
--
-- What is built: the Makefile has the lists GUI, NEWGUI and AIS commented out, and with them
-- tpe_gui.c, tpe_gui_orders.c, gui_window.c, gui_list.c, gui/star.c, gui/map.c, ai_smith.c and
-- ai_jones.c; ai_util.c is built. The models of these files are of the code as it stands in the
-- repository. The event that gui_object_delete waits for is sent by objects.c only between #if 0
-- and #endif.
pub mod Prelude
pub mod Run
pub mod Decimal
pub mod Wire
pub mod Server
pub mod Parse
pub mod Event
pub mod Sequence
pub mod Board
pub mod Comm
pub mod Orders
pub mod Objects
pub mod Resources
pub mod Ships
pub mod Structs
pub mod Players
pub mod Options
pub mod Star
pub mod Gui
