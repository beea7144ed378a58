-- ===== src/Tests.antt =====
-- Tests, and the theorems at concrete inputs.
mod Programs
mod OrderedRuns
mod ExactlyOnceRuns
mod LooserRuns
mod RingRuns
mod ProxyCodec
mod ProxyRuns
mod BroadcastRuns
mod MemberRuns
mod SeminarRuns
mod ReplicaRuns
