-- ===== src/Lib.antt =====
-- fore is an AI assisted terminal: a daemon that predicts, explains and repairs shell commands.
-- This library models the parts of it that decide what is dangerous and what may leave the
-- machine.
--
-- Texts (Prelude/Text.antt) are lists of code points, with the methods of `str` that the program
-- calls. Positions count code points where the source counts bytes: every slice of the source is
-- at a boundary of a code point, and `utf8_len` gives bytes where the source compares a length
-- with a number.
--
-- src/redact.rs removes secrets before text reaches a model. `Redact.Redactor` has `Redactor` with
-- `from_env`, `redact` and `wrap`; the environment is an argument. `Redact.Known` is layer 1
-- (`redact_known_formats`: PEM blocks and known token formats), `Redact.Assign` is layer 2
-- (`redact_assignments`: values behind keys such as `password=`), and layer 3, the values of the
-- environment, is `redact_env`. `Redact.Masked` says what any masking may do to a text and
-- `Redact.Layers` that each layer is a masking. The entropy test is in f64 in the source, here it
-- is the same inequality between integers.
--
-- src/safety.rs grades a command line. tree-sitter parses it, and is an argument `parse` here; a
-- tree is a `Node` of `Safety.Command`, which also reads the words, the name behind wrappers and
-- the flags of a command. `Safety.Risk` has `Risk`, `Assessment` and the context's `bump`. The
-- arms of the large `match` in `classify_command` are the modules of `Safety.Rules`, one for each
-- kind of tool, and `Safety.Classify` puts them together. `Safety.Assess` has `walk`,
-- `has_truncating_redirect` and `assess`. A function that calls `bump` is modelled by the list of
-- its calls, in order, which `bump_all` makes on a context.
--
-- src/store.rs keeps one row for each command, and counters. `Store` has its functions on the
-- tables as lists, newest row first, each as its SQL text says; the clock is an argument.
-- src/predict.rs is the history in memory: `Predict` has `Predictor` with its operations and
-- `suggest`, over arguments for the operations on f64 (`Scores`) and for the order in which a
-- `HashMap` is walked. A `HistoryEntry` is what the one hands to the other.
--
-- src/undo.rs makes `rm` reversible. `Undo` has its planning half: `parse_rm_args`, the paths that
-- the arguments name, and the first loop of `safe_rm`, which decides what may go to the trash;
-- what the disk answers is an argument. `Undo.Files` is the file system, a list of paths and what
-- stands there, with the calls of `std::fs` that the program makes; what the operating system
-- permits is an argument. `Undo.Trash` has `move_path` and the second half of `safe_rm`, which
-- moves files into slots below the operation's directory and writes a journal, and
-- `Undo.Trash.Restore` has `list`, `undo`, `purge` and `trash_size`.
--
-- src/daemon.rs holds the store, the predictor and the redactor behind one lock, so that requests
-- follow one another. `Daemon` has its circuit breaker `Circuit`, `should_record`, and the
-- requests `Exec`, `Done`, `Reload` and `Accepted` as functions on the state, `Daemon.Errors` the
-- texts of errors, and `Daemon.Dispatch` the whole of `dispatch`, with the requests and responses
-- of `Protocol` (src/protocol.rs); a request may meet an error of the store, which then has
-- changed nothing.
--
-- src/assist.rs reads a model's reply: `Assist` has `parse_two`, `unwrap_backticks` and
-- `last_lines`, and `Assist.Ask` the requests `fix` and `nl` with the client of the model as an
-- interface.
--
-- src/llm.rs asks the server of the model: `Llm` has `complete` with its second attempt, over an
-- argument for the network, and `Llm.Requests` what the requests carry when `Assist.Ask` makes
-- them.
--
-- src/import.rs turns a shell's history file into rows for the store. `Import` has `unmetafy`, the
-- readers for bash and zsh, the times given to entries that have none, and the choice of what is
-- kept; the decoder of UTF-8 is an argument.
--
-- src/preflight.rs runs between Enter and the command. `Preflight` has its data and texts,
-- `Preflight.Commands` the simple commands of a line, `Preflight.Guards`, `Preflight.Previews`,
-- `Preflight.GitPreviews` and `Preflight.Insights` what they find, `Preflight.Glob` the matcher of
-- names, and `Preflight.Run` the findings in the order in which they are shown. What the disk and
-- git answer is the argument `Site`; how long a check takes is left out.
--
-- src/insights.rs looks back at the history. `Insights` has the tests on a command and
-- `short_name`, `Insights.Mine` has `mine_aliases`, `Insights.Tallies` what its loops count, and
-- `Insights.Stats` has `stats`; the order in which a `HashMap` is walked and fractions are
-- arguments.
--
-- src/providers.rs edits the table `[llm]` of the configuration: `Providers` has `set_llm` and
-- `unset_llm`.
--
-- Fuel: `mask_tokens` and `key_cuts` are the `while` loops of src/redact.rs, and get one more
-- round than the text has characters, where each round consumes one or more. `peel` is the loop of
-- `command_name` and gets a round for each word. `copy_recursive` gets one more round than there
-- are entries on the disk, and uses one for each level of the tree that it copies. `assess` calls
-- itself on the payload of `find -exec` and of `xargs`, at most `depth` deep; a depth above the
-- length of the line is enough if the parser's commands are no longer than their line
-- (`FitsLines`).
--
-- Not modelled: the permissions of files in src/undo.rs, the code that reads files, sockets, the
-- terminal, the network or the clock, the text printed for the user, and the parts that the
-- component list of the project names as left out.
pub mod Prelude
pub mod Assist
pub mod Daemon
pub mod Import
pub mod Insights
pub mod Llm
pub mod Predict
pub mod Preflight
pub mod Protocol
pub mod Providers
pub mod Redact
pub mod Safety
pub mod Store
pub mod Undo
