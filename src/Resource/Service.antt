-- ===== src/Resource/Service.antt =====
-- The two service resources: of GNU/Linux with systemd and of FreeBSD with rc.
pub mod Systemd
pub mod Rc
