-- ===== src/Lib.antt =====
-- The match server of the Prism bancho server with the rules and packets it stands on, and the parts
-- of the server around it: the list of players, replays, the replay-analysis worker, clans,
-- relationships and the count of requests.
--
-- A client of osu! sends packets in the body of a request. BanchoPacketReader of app/packets.py finds
-- them one after another, and the handlers of app/api/domains/cho.py act on the session of the player
-- and on the match that the player is in (app/objects/match.py, app/objects/player.py). What they send
-- back is built by the write functions of app/packets.py. Mods and game modes are rules of
-- app/constants.
--
-- Which file models what:
-- - Base: numbers, Booleans, lists and results that the other files share. Utf8: `str.encode` and
--   `bytes.decode`, as the language defines them.
-- - Match: the enumerations, Slot and Match with their methods. Match/Handlers, Match/Complete and
--   Match/Settings: the handlers MATCH_* of cho.py, each under its own name in snake case.
--   Match/Membership: join_match and leave_match of player.py and the JOIN_MATCH handler.
--   Match/Create: the CREATE_MATCH handler.
--   Match/Requests: the packets of a match as a data type, and a sequence of them.
-- - Match/Validity and its children, Match/Seats, Match/Writes, Match/Locks: the invariant of the
--   slots and the handlers' proofs.
-- - Packets/Bytes, Reader, MatchData, ScoreFrames, Messages, Framing: the reader. Packets/Writer,
--   WriteMatch, Write: the writer. Packets/Server and its children: the builders of the server's
--   packets. Packets/Reads, Strings, Lists, Frames, MatchFields, MatchTrip, MatchAsserts, Packet:
--   their proofs.
-- - Spectators and its children: add_spectator, remove_spectator and the spectator channels of
--   player.py, with the two handlers of cho.py that use them.
-- - Mods: filter_invalid_combos of app/constants/mods.py, step by step, with Mods/Filter, Mods/Combos
--   and Mods/Fixed. GameMode: app/constants/gamemodes.py.
-- - Players: Players of app/objects/collections.py. Players/Index, Kept, Refines: its indices against
--   the list.
-- - Replay/Reader, Numbers, Frames, Parse: app/adapters/osr_replay.py, with the parsing of integers
--   that Python's `int` does. Replay/Build: app/services/replays.py with app/services/visibility.py.
--   Replay/Decimal: the decimal digits of a number. Replay/Reads, Strings, RoundTrip, Errors, Tokens:
--   proofs. Utf8/Replace: `bytes.decode` with errors="replace".
-- - Anticheat/Queue: app/repositories/replay_analysis_queue.py. Anticheat/Analysis:
--   app/services/anticheat/replay_analysis.py and flag_review.py with what they write through
--   app/repositories/score_replay_stats.py and anticheat_flags.py. Anticheat/Worker:
--   app/services/anticheat/worker.py. Anticheat/Review: app/services/anticheat/flag_review_queue.py.
--   Anticheat/Pages, Backfill, Consume, Liveness, Flags, Raises: proofs.
-- - Clans: app/services/clans.py. Clans/Consistent, Members, Kept, Leave, Transfer: the invariant of
--   its tables.
-- - Relationships: the methods of player.py for friends and blocks, the handlers FRIEND_ADD and
--   FRIEND_REMOVE of cho.py and the commands block and unblock of app/commands.py.
--   Relationships/Service: app/services/relationships.py. Relationships/Cached, Handlers, Steps: what
--   the sessions cache.
-- - Inflight: app/state/inflight.py, and Inflight/Drained.
-- - Tests: concrete runs.
--
-- How state is represented. A match is a record with a field for each attribute that the handlers
-- reach; a list of slots is a list of records, and a write through a slot object is a write at its
-- index. A player is named by its id: one session has one id, so that `is` on players is equality of
-- ids. The property `match.host` looks a session up and raises where there is none, so the handlers
-- take a function `online`. A handler returns what it raised, if it did, together with the match as it
-- left it, since what is written before an exception stays written. What is enqueued is appended to
-- the match's list `sent`, or to the list of replies of a player; a match's start timer is reduced to
-- whether there is one. `Beatmap.from_md5` is not modelled: its result is an argument of the settings
-- handler.
--
-- Handlers run to their end one after another: only the settings handler awaits, and each of its
-- stages keeps the invariant by itself. Python's integers are the numbers of the model; a field of a
-- packet has its width written out, and a number that does not fit raises as `to_bytes` and
-- `struct.pack` do. A float is the bit pattern that is packed or unpacked. A combination of mods in a
-- match is a number with bit operations; in Mods it is the set of its bits.
--
-- The list of players keeps sessions by reference, as Python does; what a session was made with is a
-- function of the reference. A database table is a list of its keys with a function to rows, or a
-- function to optional rows; a transaction is the writes in it. The worker runs one call after another
-- and an exception ends the call alone, with what was written before it. The Redis list is a list of
-- texts from its tail. A user has one session in the models of clans and of relationships, as everybody
-- has but tourney clients: the clans keep what other sessions a user has apart, as none of its calls
-- reaches them, and in the relationships nobody logs in who has a session.
--
-- Parameters stand for code that is not in the repository or not modelled, and nothing is assumed of
-- them, but where a theorem says so, that the digest of `md5` is a text and that the extraction and the
-- detectors return: `lower` and `upper` of a text, `float` of a text, `decompress` of LZMA, `md5`, the
-- equality `matches` of texts in the database, the user `named` by a name, the owner of a score, the
-- files `replays`, the clock in ticks, and `extract_features` and `run_detectors`, which are floating
-- point and may raise. Whether the writes of a row and of a flag succeed in a call is an argument,
-- `Writes`.
--
-- Fuel. The loop over packets recurses on the length of the buffer, since each round takes the seven
-- bytes of a header or more, and says so where it runs out; write_uleb128 recurses on the number that
-- it writes, which has no more digits of seven bits than its value. The loop of read_uleb128 in
-- osr_replay.py is bounded by ten bytes in the source itself; `decimal` recurses on the number, which
-- has no more digits than its value, and one more. All other loops are structural.
--
-- Not modelled: the bookkeeping of scrims, which waits for score submissions, the chat texts, the
-- persistence of matches, tourney clients, the replay frames of spectators' packets,
-- scoreframe_accuracy, names of mods, the file name of an exported replay, the features and detectors
-- of the worker, and every other part of the server: login, public channels, all commands but block
-- and unblock, score submission, beatmaps, the web API, the other repositories and services.
pub mod Anticheat
pub mod Base
pub mod Clans
pub mod GameMode
pub mod Inflight
pub mod Match
pub mod Mods
pub mod Packets
pub mod Players
pub mod Relationships
pub mod Replay
pub mod Spectators
pub mod Tests
pub mod Utf8
