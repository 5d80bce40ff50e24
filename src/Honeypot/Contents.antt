-- ===== src/Honeypot/Contents.antt =====
-- internal/honeypot/filesystem.go: what the files of the honeypot hold.
use phantom_grid.Prelude.{[], ◌∷◌, ◌++◌}
use phantom_grid.Prelude.Bytes.{Bytes, codes}
use phantom_grid.Prelude.Table.{Table}
use phantom_grid.Honeypot.Text.{text_lines}

abbrev etc_passwd : Bytes
etc_passwd = text_lines (
    "root:x:0:0:root:/root:/bin/bash" ∷ "daemon:x:1:1:daemon:/usr/sbin:/usr/sbin/nologin"
    ∷ "bin:x:2:2:bin:/bin:/usr/sbin/nologin" ∷ "sys:x:3:3:sys:/dev:/usr/sbin/nologin"
    ∷ "sync:x:4:65534:sync:/bin:/bin/sync" ∷ "games:x:5:60:games:/usr/games:/usr/sbin/nologin"
    ∷ "man:x:6:12:man:/var/cache/man:/usr/sbin/nologin"
    ∷ "lp:x:7:7:lp:/var/spool/lpd:/usr/sbin/nologin" ∷ "mail:x:8:8:mail:/var/mail:/usr/sbin/nologin"
    ∷ "news:x:9:9:news:/var/spool/news:/usr/sbin/nologin"
    ∷ "uucp:x:10:10:uucp:/var/spool/uucp:/usr/sbin/nologin"
    ∷ "proxy:x:13:13:proxy:/bin:/usr/sbin/nologin"
    ∷ "www-data:x:33:33:www-data:/var/www:/usr/sbin/nologin"
    ∷ "backup:x:34:34:backup:/var/backups:/usr/sbin/nologin"
    ∷ "list:x:38:38:Mailing List Manager:/var/list:/usr/sbin/nologin"
    ∷ "irc:x:39:39:ircd:/var/run/ircd:/usr/sbin/nologin"
    ∷ "gnats:x:41:41:Gnats Bug-Reporting System (admin):/var/lib/gnats:/usr/sbin/nologin"
    ∷ "nobody:x:65534:65534:nobody:/nonexistent:/usr/sbin/nologin"
    ∷ "systemd-network:x:100:102:systemd Network Management,,,:/run/systemd:/usr/sbin/nologin"
    ∷ "systemd-resolve:x:101:103:systemd Resolver,,,:/run/systemd:/usr/sbin/nologin"
    ∷ "systemd-timesync:x:102:104:systemd Time Synchronization,,,:/run/systemd:/usr/sbin/nologin"
    ∷ "messagebus:x:103:106::/nonexistent:/usr/sbin/nologin"
    ∷ "syslog:x:104:110::/home/syslog:/usr/sbin/nologin"
    ∷ "_apt:x:105:65534::/nonexistent:/usr/sbin/nologin"
    ∷ "tss:x:106:111:TPM software stack,,,:/var/lib/tpm:/bin/false"
    ∷ "uuidd:x:107:112::/run/uuidd:/usr/sbin/nologin"
    ∷ "tcpdump:x:108:113::/nonexistent:/usr/sbin/nologin"
    ∷ "tcpdump:x:109:114::/nonexistent:/usr/sbin/nologin"
    ∷ "sshd:x:110:65534::/run/sshd:/usr/sbin/nologin"
    ∷ "landscape:x:111:115::/var/lib/landscape:/usr/sbin/nologin"
    ∷ "pollinate:x:112:1::/var/cache/pollinate:/bin/false"
    ∷ "ubuntu:x:1000:1000:Ubuntu:/home/ubuntu:/bin/bash"
    ∷ "lxd:x:999:100::/var/snap/lxd/common/lxd:/bin/false" ∷ [])

abbrev etc_hosts : Bytes
etc_hosts = text_lines (
    "127.0.0.1\tlocalhost" ∷ "127.0.1.1\tserver" ∷ "::1\t\tlocalhost ip6-localhost ip6-loopback"
    ∷ "ff02::1\t\tip6-allnodes" ∷ "ff02::2\t\tip6-allrouters" ∷ [])

abbrev var_log_auth_log : Bytes
var_log_auth_log = text_lines (
    "Dec 15 10:23:15 server sshd[1234]: Accepted publickey for root from 192.168.1.100 port 54321 ssh2"
    ∷ "Dec 15 10:25:30 server sshd[1235]: Failed password for invalid user admin from 192.168.1.101 port 54322 ssh2"
    ∷ "Dec 15 10:26:45 server sshd[1236]: Accepted publickey for ubuntu from 192.168.1.102 port 54323 ssh2"
    ∷ "Dec 15 10:28:12 server sudo:     root : TTY=pts/0 ; PWD=/root ; USER=root ; COMMAND=/usr/bin/apt update"
    ∷ "Dec 15 10:30:22 server sshd[1237]: Invalid user test from 192.168.1.103 port 54324 ssh2"
    ∷ [])

abbrev var_log_syslog : Bytes
var_log_syslog = text_lines (
    "Dec 15 10:20:01 server systemd[1]: Started Daily apt upgrade and clean activities."
    ∷ "Dec 15 10:20:15 server systemd[1]: Starting Cleanup of Temporary Directories..."
    ∷ "Dec 15 10:20:15 server systemd[1]: Started Cleanup of Temporary Directories."
    ∷ "Dec 15 10:23:15 server sshd[1234]: Server listening on 0.0.0.0 port 22."
    ∷ "Dec 15 10:23:15 server sshd[1234]: Server listening on :: port 22."
    ∷ "Dec 15 10:25:30 server kernel: [12345.678901] audit: type=1106 audit(1639561530.123:456): pid=1235 uid=0 auid=4294967295 ses=4294967295 msg='op=PAM:authentication acct=\"admin\" exe=\"/usr/sbin/sshd\" hostname=? addr=192.168.1.101 terminal=ssh res=failed'"
    ∷ [])

abbrev root_bash_history : Bytes
root_bash_history =
    text_lines ("cd /var/www" ∷ "ls -la" ∷ "cat config.php" ∷ "mysql -u root -p" ∷ "exit" ∷ [])

abbrev root_config_txt : Bytes
root_config_txt = text_lines (
    "# Database Configuration" ∷ "DB_HOST=localhost" ∷ "DB_USER=admin" ∷ "DB_PASS=********"
    ∷ "DB_NAME=production" ∷ "" ∷ "# API Keys" ∷ "API_KEY=sk_live_51H3ll0W0rld"
    ∷ "SECRET_KEY=sk_test_4BcDeFgHiJkLmNoPqRsTuVwXyZ" ∷ [])

abbrev var_www_config_php : Bytes
var_www_config_php =
    text_lines (
      "<?php" ∷ "define('DB_HOST', 'localhost');" ∷ "define('DB_USER', 'admin');"
      ∷ "define('DB_PASS', 'P@ssw0rd123');" ∷ "define('DB_NAME', 'wordpress');"
      ∷ "define('WP_DEBUG', false);" ∷ [])
    ++ codes "?>"

abbrev etc_nginx_nginx_conf : Bytes
etc_nginx_nginx_conf = text_lines (
    "user www-data;" ∷ "worker_processes auto;" ∷ "pid /run/nginx.pid;" ∷ "" ∷ "events {"
    ∷ "\tworker_connections 768;" ∷ "}" ∷ "" ∷ "http {" ∷ "\tsendfile on;" ∷ "\ttcp_nopush on;"
    ∷ "\ttcp_nodelay on;" ∷ "\tkeepalive_timeout 65;" ∷ "\ttypes_hash_max_size 2048;" ∷ ""
    ∷ "\tinclude /etc/nginx/mime.types;" ∷ "\tdefault_type application/octet-stream;" ∷ ""
    ∷ "\taccess_log /var/log/nginx/access.log;" ∷ "\terror_log /var/log/nginx/error.log;" ∷ ""
    ∷ "\tserver {" ∷ "\t\tlisten 80 default_server;" ∷ "\t\tlisten [::]:80 default_server;"
    ∷ "\t\troot /var/www/html;" ∷ "\t\tindex index.html index.htm index.nginx-debian.html;"
    ∷ "\t\tserver_name _;" ∷ "\t\tlocation / {" ∷ "\t\t\ttry_files $uri $uri/ =404;" ∷ "\t\t}"
    ∷ "\t}" ∷ "}" ∷ [])

abbrev pub init_files : Table Bytes
init_files =
    (codes "/etc/passwd", etc_passwd)
    ∷ (codes "/etc/hosts", etc_hosts)
    ∷ (codes "/var/log/auth.log", var_log_auth_log)
    ∷ (codes "/var/log/syslog", var_log_syslog)
    ∷ (codes "/root/.bash_history", root_bash_history)
    ∷ (codes "/root/config.txt", root_config_txt)
    ∷ (codes "/var/www/config.php", var_www_config_php)
    ∷ (codes "/etc/nginx/nginx.conf", etc_nginx_nginx_conf)
    ∷ []
