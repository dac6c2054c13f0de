-- ===== src/Lib.antt =====
-- HPC Client GUI: models of the services of the desktop client for HPC clusters (Python, under
-- src/hpc_gui from the repository's root) and theorems on them.
--
-- The program shows local and remote directories side by side, transfers files, submits and
-- follows Slurm jobs, and is extended by plugins. The widgets under src/hpc_gui/ui call
-- services that know nothing of Qt; it is these services that are modelled, each as a module
-- of its own:
--
-- Queue: src/hpc_gui/services/transfer_controller.py. The queue of transfers, which the
-- transfer dialog and the panels fill. `TransferController` has the fields of the class, and
-- the lists hold references into a store, since the items are mutable and shared. Each method
-- is a function of the same name on the controller. Queue.Worker has the worker thread `_run`
-- as steps on a `Run` (controller, index, place in the code, items lost), one for each read or
-- write of what the threads share, and `perform` does one step of it or one call by another
-- thread, so a list of actions is an interleaving. A subscriber does not raise. The environment
-- picks the future that completes and its error. One future is taken at a time, where `wait`
-- may give several at once; the events of the callbacks are a log.
--
-- Transfer: src/hpc_gui/services/transfer_mode.py. The conversion of line endings of whole
-- files and of files read in chunks (Transfer.Stream, over Transfer.Lines and Transfer.Utf8),
-- and the choice between binary and text (Transfer.Mode). Files are lists of bytes, text is a
-- list of code points. The queue's `run_item` ends up here; the two meet through its result
-- only. Transfer.Partial is the protocol of partial uploads over the `upload` of
-- src/hpc_gui/services/files_ssh.py, with what each call raises given by the environment;
-- Transfer.Upload and Transfer.Download compose it with the modes.
--
-- Channels: src/hpc_gui/ssh/sftp_channels.py, the channels of a connection that transfers and
-- listings use, as steps of the thread that has the lock and of the drops of others; paramiko's
-- answers are arguments, and Channels.Life says what the log of the events tells of a channel.
--
-- Config: src/hpc_gui/config, the profiles and settings that every part reads; JSON values are
-- Base.Json. Config.File has the file, what `load_config` makes of a missing or corrupt one and
-- the updates of its settings, from storage.py; Config.Settings the getters and setters,
-- Config.Migration the old transfer setting, Config.Profiles loading, storing and deleting
-- profiles, with `uuid4` and `str` of a value that is no string as parameters.
-- Config.Profiles.View is the abstract view, a map from ids to profiles. Config.Jump has
-- jump_host_profile.py, Config.FileManager file_manager_profile.py.
--
-- Config.System: src/hpc_gui/config/system_profile.py, the settings of a Slurm system and the user's
-- templates.
--
-- Quota: src/hpc_gui/services/quota_monitor.py, the gate before a quota is asked for and the
-- monitor of its jobs, as steps; when jobs end is up to the environment.
--
-- Compare: src/hpc_gui/services/directory_comparison.py, which marks the entries of the two
-- panels.
--
-- Navigation: src/hpc_gui/services/remote_navigation_store.py, the favorites and visits of a
-- profile; Navigation.Disk has the file, with the encryption as a parameter.
--
-- History: src/hpc_gui/services/command_history_store.py, the commands of the terminals and
-- their file, with the search of a regular expression and the JSON of a line as parameters.
--
-- Lint: src/hpc_gui/lint/engine.py and src/hpc_gui/lint/models.py. Lint.Index is the index of
-- the lines, Lint.Rules one rule, Lint.Engine the loop with its caps; matches of regular
-- expressions are a parameter.
--
-- Plugins: src/hpc_gui/plugins/compatibility.py, the requirement of a plugin on the program's
-- version, which the loader, the installer and the registry client ask; Plugins.Active is the file
-- of active versions of storage.py and the activation of state.py, over the loader's verdict.
--
-- Base: what the modules share. Base.Dict is Python's dictionary as a list of entries in the
-- order of insertion, Base.Text the methods of `str` on lists of code points.
--
-- Errors: where the code raises, the model returns `none` or a value of a result type, and
-- each file says which. Numbers are natural; a negative argument that the code treats like
-- zero is given as zero. No loop runs on fuel that could give out but the binary search of
-- Lint.Index, which has as many rounds as there are offsets; Lint.Index.Position shows these
-- to be enough. The streaming conversion recurses on the list of chunks, `_run` is a step
-- function.
--
-- Texts: Base.Text.lower and the comparisons of letters are exact for ASCII; Base.Digits
-- has the digits of Unicode 14.
--
-- Not modelled: the user interface, the command line, the SSH and FTP backends, Slurm,
-- the installation of plugins and updates, and whatever only calls the operating
-- system.
pub mod Base
pub mod Channels
pub mod Compare
pub mod Config
pub mod History
pub mod Lint
pub mod Navigation
pub mod Plugins
pub mod Queue
pub mod Quota
pub mod Transfer
