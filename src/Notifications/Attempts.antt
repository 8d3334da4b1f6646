-- ===== src/Notifications/Attempts.antt =====
-- How often a job is tried.
use my_fans.Common.{ℕ, ◌≤◌, ◌<◌, ◌≡◌, some}
use my_fans.Notifications.{QueueJob, JobStatus, pending, processing, completed, failed}
use my_fans.Notifications.Service.{Ports, Service}

-- The durable store throws for some write.
abbrev pub CanThrow : Ports → Type 0
CanThrow ports = (j : QueueJob) × (d : ports.Disk) × (e : ℕ) × ((ports.persist j d).0 ≡ some e)

-- A pending job has a try left, a failed one has had its three, and one is left in the middle of a
-- try only where the durable store throws.
abbrev pub Tried : Ports → JobStatus → ℕ → Type 0
Tried ports pending n = n < 3
Tried ports processing n = CanThrow ports × (n ≤ 3)
Tried ports completed n = n ≤ 3
Tried ports failed n = n ≡ 3

abbrev pub IsJob : Ports → QueueJob → Type 0
IsJob ports j = Tried ports j.status j.attempts
