-- ===== src/Process/Redelivery.antt =====
-- What a panic does in actor/process.go while a graceful pill drains the rest of a batch.
use hollywood.Base.{List}
use hollywood.Pid.{Pid}
