-- ===== src/Simpsh.antt =====
-- The shell simpsh, lab1-sunnieKim/main.c, and the `--wait N` of its extended version,
-- lab1-SunnieSo_designProblem/main.c. The options are handled one by one by the loop of `main`;
-- the system calls and getopt_long are the fields of `Os`.
pub mod Args
pub mod State
pub mod Table
pub mod Command
pub mod Options
pub mod Main
pub mod Design
mod Tests
