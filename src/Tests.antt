-- ===== src/Tests.antt =====
-- Runs of the model on concrete inputs, and the theorems at inputs that meet their hypotheses.
mod ShellRuns
mod ReplRuns
mod FsRuns
mod WifiRuns
mod ComRuns
mod TaskRuns
mod RmtRuns
mod SocketRuns
mod BleRuns
mod HttpdRuns
mod NetRuns
mod SyncRuns
mod LockRuns
mod SharedRuns
