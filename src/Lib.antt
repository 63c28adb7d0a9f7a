-- ===== src/Lib.antt =====
-- The core of the Spread daemon, spread-src-4.4.0/daemon: a group communication toolkit, whose daemons
-- order messages by a token that goes round a ring.
--
-- The parts. A configuration (configuration.c) lists the daemons in segments; it says who the leader
-- is and from whom the token comes. The token protocol (protocol.c) takes messages from the session
-- layer into the down queue, packs them into packets while it holds the token, as many as the flow
-- control (flow_control.c) allows, receives the packets of other daemons into the slots of a window,
-- asks on the token for packets that are missing, and delivers packets upwards: reliable messages at
-- once, agreed ones in the order of the sequence numbers, safe ones when the token's aru says that
-- every daemon has them. When the membership changes (membership.c), the protocol delivers what is
-- left of the old ring in the state EVS and installs the new one. The daemons find each other in the
-- states SEG, REPRESENTED and GATHER, and agree on the new ring by a form token, which goes round twice:
-- to be filled in, and to be read (FORM, then EVS).
-- On top of the ordered messages the process groups (groups.c) keep which clients are members of which
-- group, at which daemon; when daemons are lost, their clients leave all groups.
--
-- The files.
--   Prelude: tests, lists and integers that the other files share.
--   Configuration: daemon/configuration.c. Conf_leader is `leader`, Conf_previous is `previous`,
--     Conf_config_copy is `config_copy`, and so on, by name. Configuration/Ring and
--     Configuration/Copy hold the theorems.
--   NetTypes: daemon/net_types.h. A type word is a number, whose bits the macros read.
--   FlowControl: daemon/flow_control.c. FC_allowed is `allowed`.
--   Membership: the part of daemon/membership.c that installs a membership, and the variables that the
--     protocol reads. Membership/Members: Insert_member, Smallest_member, Sort_members.
--     Membership/Reps: Insert_rep, Smallest_rep, Sort_reps. Both sort by Membership/Selection.
--     Membership/Form: the form tokens, and the rings on them. Membership/Gather: the record `Daemon` of
--     the variables by which the daemons find each other, the six states, Memb_token_loss and
--     Backoff_membership; its children Create, Fill and Read are Create_form1, Fill_form1 and
--     Read_form2, Handle the handlers of messages and tokens by state (`handle_alive` is
--     Memb_handle_alive), Event those of the timed events, a regular token with what it does to the
--     membership (`handle_regular_token`), and the step relation `Step`.
--   Protocol: daemon/protocol.c. Protocol/State holds its variables in the record `Prot`; the calls of
--     other components are values of `Effect`, in the order in which they are made, in `out`.
--     Protocol/Fragment: the bytes of a packet, packed by Send_new_packets (`fill`) and unpacked by
--     Deliver_packet (`later_messages`). Protocol/Send: Send_new_packets, Prot_queue_bcast,
--     Prot_flush_bcast. Protocol/Receive: Prot_handle_bcast (`handle_bcast`, and `accept_packet`
--     behind its checks), Handle_hurry, Prot_token_hurry, Prot_new_message. Protocol/Deliver: the
--     deliveries. Protocol/Discard: Discard_packets. Protocol/Answer: Answer_retrans and the daemon's
--     own requests. Protocol/Token: Prot_handle_token (`handle_token`). Protocol/Unmoved and
--     Protocol/Token/Alive: what these do to the variables of the membership.
--   Events: the timed events of libspread-util/src/events.c. E_queue is `e_queue`, E_dequeue is
--     `e_dequeue`, E_add_time is `add_time`.
--   Groups: daemon/groups.c. Groups/State holds its variables in the record `Groups`, with the
--     messages that the local sessions get in `sent`. Groups/SkipList: what stdutil/src/stdskl.c
--     does, on the sequence of its lowest level. Groups/Names: G_private_to_names. Groups/Views: the
--     membership notifications, with their vs sets. Groups/Handle: G_handle_join. Groups/Depart:
--     G_handle_leave and G_handle_kill. Groups/Change: G_handle_trans_memb, and G_handle_reg_memb
--     when no daemon was added. Groups/Members has the view of the groups as a relation between
--     clients, daemons and groups (`is_member`), Groups/Invariant and WellFormed have the invariant.
--     Groups/Join, Leave, Kill, Departures and Cascade hold the theorems, as Groups/Sets and Naming
--     do.
--   Tests: the functions and theorems at concrete inputs.
--
-- A function that may end the process by an alarm returns an Option, and `none` stands for that end.
-- Pointers to packets and daemons are the values behind them; reference counts and the freeing of
-- memory are left out. Sequence numbers are numbers: Prot_handle_token drops a token above 2 ^ 30, so
-- that an int32 does not overflow. The fields that are int16 and may be negative are integers, cut to
-- 16 bits where they are written.
--
-- Loops are recursion on the number of their rounds. The loop that fills a packet runs on fuel, one
-- more than the bytes of a packet: each round adds at least the 4 bytes of a fragment header. The loop
-- that reads a packet has one more than its bytes, for the same reason.
--
-- Not modelled: the start of the membership and its timeouts (Memb_init), the other byte order, the
-- malformed lengths and the printing of form tokens, the exchange of groups by GROUPS messages when
-- daemons are added (G_handle_groups and G_handle_reg_memb's other branches), the scatters that carry
-- notifications, sessions with clients (session.c, message.c), sockets (network.c), the parser of the
-- configuration file, its reload and the options of a daemon, access control, the monitor, logging,
-- memory, the descriptors of events.c, the client library, most of stdutil and the Java program of
-- src/. Of protocol.c the repair of the other byte order, the priorities of the descriptors, the
-- start, the statistics and Prot_initiate_conf_reload are left out.
pub mod Prelude
pub mod Configuration
pub mod NetTypes
pub mod FlowControl
pub mod Membership
pub mod Protocol
pub mod Events
pub mod Groups
pub mod Tests
