-- ===== src/Boot.antt =====
-- src/main.rs, src/env_policy.rs, src/key_source.rs, src/boot.rs: the start of the process, from the
-- environment and the baked policy to the state that serves requests.
pub mod Numbers
pub mod Policy
pub mod Config
pub mod Start
pub mod PolicyLaws
pub mod GateLaws
pub mod ConfigLaws
pub mod StartLaws
pub mod PanicLaws
mod Tests
