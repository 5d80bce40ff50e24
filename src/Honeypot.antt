-- ===== src/Honeypot.antt =====
-- internal/honeypot: the services that the honeypot plays.
pub mod Resp
pub mod Redis
pub mod Text
pub mod Filesystem
pub mod Contents
pub mod Screens
pub mod Ssh
pub mod Mysql
pub mod Pages
pub mod Http
pub mod Ftp
pub mod Trap
pub mod Portals
pub mod Banners
pub mod Sql
